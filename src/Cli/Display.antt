-- ===== src/Cli/Display.antt =====
-- `display_response` of src/cli/client_main.cpp: the text that is printed for an answer.
pub mod Whole
pub mod Errors
use cpp_db.Base.{
  Bool, Bytes, List, Option, [], codes, if◌then◌else◌, length, none, some, str_eq, suc, zero, ℕ,
  ◌+◌, ◌++◌, ◌==◌, ◌||◌, ◌∷◌,
}
use cpp_db.Network.Protocol.{before_quote, strip_prefix, strstr}

-- The text between a pattern and the next quote, if both are there.
unfoldable pub text_behind : Bytes → Bytes → Option Bytes
unfolding strstr before_quote
text_behind pattern json = elim (strstr pattern json) [
  | none ↦ none
  | some rest ↦ before_quote rest
]

-- The branch for an error.
unfoldable pub display_error : Bytes → Bytes
unfolding text_behind
display_error json = elim (text_behind (codes "\"message\":\"") json) [
  | none ↦ codes "ERROR: (unknown)\n"
  | some msg ↦ codes "ERROR: " ++ (msg ++ codes "\n")
]

-- The kind of the statement, if the answer has it.
unfoldable pub display_kind : Bytes → Bytes
unfolding text_behind
display_kind json = elim (text_behind (codes "\"kind\":\"") json) [
  | none ↦ []
  | some kind ↦ codes "  Statement: " ++ (kind ++ codes "\n")
]

-- `strstr(pos, "\":\"")`: the bytes before the match, last one first, and the text behind it.
unfoldable pub next_value : Bytes → Bytes → Option (Bytes × Bytes)
unfolding strip_prefix
next_value before [] = none
next_value before (c ∷ cs) = elim (strip_prefix (codes "\":\"") (c ∷ cs)) [
  | some rest ↦ some (before, rest)
  | none ↦ next_value (c ∷ before) cs
]

-- The loop that goes back to the quote or the comma before a key.
unfoldable pub key_back : Bytes → Bytes → Bytes
key_back [] key = key
key_back (c ∷ before) key =
    let longer = key_back before (c ∷ key) in if c == b'"' || c == b',' then key else longer

-- The key without a comma or a brace at its start.
abbrev pub trim_key : Bytes → Bytes
trim_key [] = []
trim_key (c ∷ key) = if c == b',' || c == b'{' then key else c ∷ key

-- What is printed for a key and its value.
unfoldable pub display_pair : Bytes → Bytes → Bytes
unfolding str_eq
display_pair key val =
    if str_eq key (codes "status") || str_eq key (codes "kind")
    then []
    else codes "  " ++ (key ++ (codes ": " ++ (val ++ codes "\n")))

-- The bytes put before those that the loop has passed, last one first.
unfoldable pub passed : Bytes → Bytes → Bytes
passed [] before = before
passed (c ∷ cs) before = passed cs (c ∷ before)

-- The text behind a value and its quote.
unfoldable pub behind_quote : Bytes → Bytes
behind_quote [] = []
behind_quote (c ∷ cs) = let rest = behind_quote cs in if c == b'"' then cs else rest

-- The loop over the values, with fuel, from `pos` on: none if it reads behind the end of the text.
unfoldable pub display_values : ℕ → Bytes → Bytes → Option Bytes
unfolding next_value before_quote key_back display_pair passed behind_quote
display_values zero before text = none
display_values (suc fuel) before text = elim (next_value before text) [
  | none ↦ some []
  | some (keys, rest) ↦ elim (before_quote rest) [
    | some val ↦
        elim (display_values fuel (b'"' ∷ passed val (b'"' ∷ b':' ∷ b'"' ∷ keys))
          (behind_quote rest)) [
            | none ↦ none
            | some lines ↦ some (display_pair (trim_key (key_back keys [])) val ++ lines)
          ]
    | none ↦ elim rest [
      | [] ↦ none
      | c ∷ cs ↦ display_values fuel (c ∷ b'"' ∷ b':' ∷ b'"' ∷ keys) cs
    ]
  ]
]

-- The branch for another status.
unfoldable pub display_ok : Bytes → Option Bytes
unfolding display_kind display_values
display_ok json = elim (display_values (length json + 1) [] json) [
  | none ↦ none
  | some lines ↦ some (codes "OK\n" ++ (display_kind json ++ lines))
]

-- `display_response`
unfoldable pub display_response : Bytes → Option Bytes
unfolding text_behind str_eq display_error display_ok
display_response json = elim (text_behind (codes "\"status\":\"") json) [
  | none ↦ some (json ++ codes "\n")
  | some status ↦
      if str_eq status (codes "error") then some (display_error json) else display_ok json
]
