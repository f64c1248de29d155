-- ===== src/Tests/JsonArray.antt =====
-- The file of a JSON array on concrete calls.
use seth.Prelude.{ℕ, suc, take, All, List, [], ◌∷◌, ◌++◌, none, some, inr, ◌≡◌, refl}
use seth.Prelude.Text.{Text, codes}
use seth.Prelude.Errors.{Error, foreign}
use seth.JsonArray.{drop_last, append_item, append_part, create_or_append_to_json_array}
use seth.JsonArray.Appended.{
  Answers, IsWhole, append_all, items_of, separated, json_array, append_all-json_array,
}

-- The second write fails.
abbrev calls : List Answers
calls =
    (none, none, inr (codes "1"))
    ∷ (none, some (0, foreign (codes "no space left on device")), inr (codes "2"))
    ∷ (none, none, inr (codes "3"))
    ∷ []

content_run : append_all calls [] ≡ codes "[1," ++ (10 ∷ codes "3]")
unfolding append_all create_or_append_to_json_array append_item append_part drop_last
content_run = refl

-- An empty array is not an empty file.
empty_array_run : append_item (codes "[]") (codes "1") ≡ codes "[," ++ (10 ∷ codes "1]")
unfolding append_item drop_last
empty_array_run = refl

-- A write that breaks off after the comma.
torn_run : append_part 1 (codes "[1]") (codes "2") ≡ codes "[1,"
unfolding append_part drop_last
torn_run = refl

append_all-json_array_example :
    (All IsWhole calls
      → append_all calls (json_array (codes "0" ∷ []))
        ≡ json_array (codes "0" ∷ [] ++ items_of calls))
    × ((x : Text) (k : ℕ) (e : Error) (json : Text)
        → (create_or_append_to_json_array none
            (some (suc k, e))
            (inr json)
            (json_array (x ∷ codes "0" ∷ []))).0
          ≡ codes "["
            ++ (separated (x ∷ codes "0" ∷ [])
                ++ take (suc k) (codes "," ++ (10 ∷ (json ++ codes "]")))))
append_all-json_array_example = append_all-json_array (codes "0" ∷ []) calls

calls-IsWhole : All IsWhole calls
calls-IsWhole = (tt, (refl, (tt, tt)))
