-- ===== src/JsonArray.antt =====
-- CreateOrAppendToJsonArray of util.go. The file is its content; opening it, the JSON of the new item and
-- the write are answers of packages os and json. A write that fails may have written the start of
-- the item's text.
pub mod Appended
use seth.Prelude.{ℕ, zero, suc, take, List, [], ◌∷◌, ◌++◌, Option, none, some, ◌⊎◌, inl, inr}
use seth.Prelude.Text.{Text, codes}
use seth.Prelude.Errors.{Error, Result, ok, err, Done}

-- the content before the cursor, one character from the end
unfoldable pub drop_last : Text → Text
drop_last [] = []
drop_last (c ∷ []) = []
drop_last (c ∷ d ∷ text) = c ∷ drop_last (d ∷ text)

-- a comma, and a new line
abbrev pub separator : Text
separator = codes "," ++ 10 ∷ []

-- the content after an item was written
unfoldable pub append_item : Text → Text → Text
append_item [] json = codes "[" ++ (json ++ codes "]")
append_item (c ∷ text) json = drop_last (c ∷ text) ++ (separator ++ (json ++ codes "]"))

-- The content after the first `k` characters of the item's text were written: the first of them goes over
-- the last character of the file.
unfoldable pub append_part : ℕ → Text → Text → Text
append_part zero text json = text
append_part (suc k) [] json = take (suc k) (codes "[" ++ (json ++ codes "]"))
append_part (suc k) (c ∷ text) json =
    drop_last (c ∷ text) ++ take (suc k) (separator ++ (json ++ codes "]"))

-- `opened` is the error of opening the file and of the first Seek, where one of them fails; `written` is
-- the error of the second Seek or of the write, with the number of characters that were written.
unfoldable pub create_or_append_to_json_array :
    Option Error → Option (ℕ × Error) → Error ⊎ Text → Text → Text × Done
create_or_append_to_json_array (some e) written json text = (text, err e)
create_or_append_to_json_array none written (inl e) text = (text, err e)
create_or_append_to_json_array none (some (k, e)) (inr json) text = (append_part k text json, err e)
create_or_append_to_json_array none none (inr json) text = (append_item text json, ok tt)
