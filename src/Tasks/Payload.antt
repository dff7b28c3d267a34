-- ===== src/Tasks/Payload.antt =====
-- `_validate_task_json` of backend/career_harness/db/task_repository.py: no secret in a payload,
-- and at most 1,000,000 bytes of JSON.
use career_agent_harness.Base.{
  ℕ, String, Bool, true, false, ◌||◌, ◌&&◌, List, [], ◌∷◌, ◌++◌, ◌+◌, leb, ◌==◌, any, if◌then◌else◌,
}
use career_agent_harness.Base.Text.{codes, codes_eq, between}
use career_agent_harness.Base.Json.{
  Json, null, bool, int, float, text, arr, obj, Items, nil, cons, Fields, end, field, encoded_size,
}

abbrev pub max_task_json_bytes : ℕ
max_task_json_bytes = 1000000

-- The letter that a character stands for under `re.IGNORECASE`, which takes U+0130 and U+0131 for
-- an i, U+017F for an s and U+212A for a k.
fold_case : ℕ → ℕ
fold_case c =
    if between b'A' b'Z' c
    then c + 32
    else if c == 0x130 || c == 0x131
    then b'i'
    else if c == 0x17f
    then b's'
    else if c == 0x212a
    then b'k'
    else c

abbrev secret_words : List String
secret_words = "api_key" ∷ "apikey" ∷ "token" ∷ "password" ∷ "secret" ∷ "authorization" ∷ []

fold_codes : List ℕ → List ℕ
unfolding fold_case
fold_codes [] = []
fold_codes (c ∷ cs) = fold_case c ∷ fold_codes cs

-- `$` matches at the end, and before one newline at the end.
is_word : List ℕ → String → Bool
is_word s w = codes_eq s (codes w) || codes_eq s (codes w ++ 10 ∷ [])

-- A word of the pattern stands at the end, behind the start of the text or a `_`.
scan_words : Bool → List ℕ → Bool
unfolding is_word
scan_words start [] = false
scan_words start (c ∷ cs) =
    let rest = scan_words (c == b'_') cs in (start && any (is_word (c ∷ cs)) secret_words) || rest

-- `_SECRET_KEY.search(key)`
unfoldable pub is_secret_key : String → Bool
unfolding fold_codes scan_words
is_secret_key key = scan_words true (fold_codes (codes key))

unfoldable mutual
  pub has_secret_key : Json → Bool
  has_secret_key null = false
  has_secret_key (bool b) = false
  has_secret_key (int negative n) = false
  has_secret_key (float s) = false
  has_secret_key (text s) = false
  has_secret_key (arr xs) = any_item_secret xs
  has_secret_key (obj fs) = any_field_secret fs

  pub any_item_secret : Items → Bool
  any_item_secret nil = false
  any_item_secret (cons x xs) = has_secret_key x || any_item_secret xs

  pub any_field_secret : Fields → Bool
  any_field_secret end = false
  any_field_secret (field key child fs) =
      (is_secret_key key || has_secret_key child) || any_field_secret fs

-- True where `_validate_task_json` returns; where it is false a `ValueError` is raised.
unfoldable pub valid_task_json : Fields → Bool
valid_task_json value =
    if any_field_secret value then false else leb (encoded_size (obj value)) max_task_json_bytes
