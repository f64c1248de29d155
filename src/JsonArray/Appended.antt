-- ===== src/JsonArray/Appended.antt =====
-- The file of several items.
use seth.Prelude.{
  ℕ, zero, suc, take, All, List, [], ◌∷◌, ◌++◌, append_assoc, append-nil, none, some, Option, ◌⊎◌,
  inl, inr, ◌≡◌, refl, sym, ap, ◌∙◌,
}
use seth.Prelude.Text.{Text, codes}
use seth.Prelude.Errors.{Error}
use seth.JsonArray.{drop_last, separator, append_item, append_part, create_or_append_to_json_array}

-- The outcomes of one call: the errors of opening and of writing, and the item's JSON.
abbrev pub Answers : Type 0
Answers = (opened : Option Error) × (written : Option (ℕ × Error)) × (Error ⊎ Text)

-- A write that fails has written nothing.
abbrev pub IsWhole : Answers → Type 0
IsWhole (opened, none, json) = Unit {0}
IsWhole (opened, some (k, e), json) = k ≡ 0

-- Calls one after the other.
unfoldable pub append_all : List Answers → Text → Text
append_all [] text = text
append_all ((opened, written, json) ∷ calls) text =
    append_all calls (create_or_append_to_json_array opened written json text).0

-- The items of the calls that succeed.
unfoldable pub items_of : List Answers → List Text
items_of [] = []
items_of ((none, none, inr json) ∷ calls) = json ∷ items_of calls
items_of ((some e, written, json) ∷ calls) = items_of calls
items_of ((none, some e, json) ∷ calls) = items_of calls
items_of ((none, none, inl e) ∷ calls) = items_of calls

unfoldable pub separated : List Text → Text
separated [] = []
separated (x ∷ []) = x
separated (x ∷ y ∷ ys) = x ++ (separator ++ separated (y ∷ ys))

-- The array of the items; no items are no file content at all.
unfoldable pub json_array : List Text → Text
json_array [] = []
json_array (x ∷ xs) = codes "[" ++ (separated (x ∷ xs) ++ codes "]")

drop_last-append : (c : ℕ) (text : Text) → drop_last (text ++ c ∷ []) ≡ text
unfolding drop_last
drop_last-append c [] = refl
drop_last-append c (d ∷ []) = refl
drop_last-append c (d ∷ e ∷ text) = ap (λ t. d ∷ t) (drop_last-append c (e ∷ text))

separated-append :
    (x : Text) (xs : List Text) (y : Text)
    → separated (x ∷ xs ++ y ∷ []) ≡ separated (x ∷ xs) ++ (separator ++ y)
unfolding separated
separated-append x [] y = refl
separated-append x (z ∷ zs) y =
    let before = separator ++ separated (z ∷ zs) in
    let step : separator ++ separated (z ∷ zs ++ y ∷ []) ≡ before ++ (separator ++ y) =
      ap (λ t. separator ++ t) (separated-append z zs y) in
    ap (λ t. x ++ t) step ∙ sym (append_assoc x before (separator ++ y))

append_item-json_array :
    (xs : List Text) (y : Text) → append_item (json_array xs) y ≡ json_array (xs ++ y ∷ [])
unfolding append_item json_array separated
append_item-json_array [] y = refl
append_item-json_array (x ∷ xs) y =
    let items = separated (x ∷ xs) in
    let cut : drop_last (91 ∷ (items ++ 93 ∷ [])) ≡ 91 ∷ items = drop_last-append 93 (91 ∷ items) in
    ap (λ t. t ++ (separator ++ (y ++ 93 ∷ []))) cut
    ∙ ap (λ t. 91 ∷ t)
        (sym (append_assoc items (separator ++ y) (93 ∷ []))
          ∙ ap (λ t. t ++ 93 ∷ []) (sym (separated-append x xs y)))

-- A write that breaks off after its first character, and before its end, leaves the items without
-- their closing bracket.
torn :
    (x : Text) (xs : List Text) (k : ℕ) (json : Text)
    → append_part (suc k) (json_array (x ∷ xs)) json
      ≡ codes "[" ++ (separated (x ∷ xs) ++ take (suc k) (separator ++ (json ++ codes "]")))
unfolding append_part json_array
torn x xs k json =
    ap (λ t. t ++ take (suc k) (separator ++ (json ++ codes "]")))
      (drop_last-append 93 (91 ∷ separated (x ∷ xs)))

append_all-whole :
    (xs : List Text) (calls : List Answers)
    → All IsWhole calls
    → append_all calls (json_array xs) ≡ json_array (xs ++ items_of calls)
unfolding append_all items_of create_or_append_to_json_array append_part
append_all-whole xs [] w = ap json_array (sym (append-nil xs))
append_all-whole xs ((none, none, inr json) ∷ calls) (u, w) =
    ap (append_all calls) (append_item-json_array xs json)
    ∙ append_all-whole (xs ++ json ∷ []) calls w
    ∙ ap json_array (append_assoc xs (json ∷ []) (items_of calls))
append_all-whole xs ((some e, written, json) ∷ calls) (u, w) = append_all-whole xs calls w
append_all-whole xs ((none, some (zero, e), inl f) ∷ calls) (u, w) = append_all-whole xs calls w
append_all-whole xs ((none, some (zero, e), inr json) ∷ calls) (u, w) = append_all-whole xs calls w
append_all-whole xs ((none, some (suc k, e), json) ∷ calls) (u, w) = absurd cc
append_all-whole xs ((none, none, inl e) ∷ calls) (u, w) = append_all-whole xs calls w

-- After any calls on a file that holds an array of items, or nothing, where a write that fails has
-- written nothing, the file holds the array of those items and the ones of the calls that succeeded, in
-- order. A write that fails after at least one character leaves a file with items without their closing
-- bracket: the items, and then as much of the separator, the item and the bracket as was written.
pub append_all-json_array :
    (xs : List Text) (calls : List Answers)
    → (All IsWhole calls → append_all calls (json_array xs) ≡ json_array (xs ++ items_of calls))
      × ((x : Text) (k : ℕ) (e : Error) (json : Text)
          → (create_or_append_to_json_array none
              (some (suc k, e))
              (inr json)
              (json_array (x ∷ xs))).0
            ≡ codes "["
              ++ (separated (x ∷ xs) ++ take (suc k) (codes "," ++ (10 ∷ (json ++ codes "]")))))
unfolding create_or_append_to_json_array
append_all-json_array xs calls = (append_all-whole xs calls, λ x k e json. torn x xs k json)
