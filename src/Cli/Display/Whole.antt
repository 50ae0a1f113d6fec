-- ===== src/Cli/Display/Whole.antt =====
-- src/cli/client_main.cpp: an answer is shown in whole lines, without a read behind its end.
use cpp_db.Base.{
  Option-cases, ap₂, OnResult_mono, subst, sym, Bool-cases, Bytes, OnResult, Option, Returns, [],
  ap, arith, codes, inl, inr, length, none, refl, some, suc, zero, ℕ, ◌+◌, ◌++◌, ◌<◌, ◌==◌, ◌∷◌,
  ◌≡◌, ◌≢◌, ◌≤◌, ◌⊎◌, str_eq, ◌||◌, ◌∙◌,
}
use cpp_db.Network.Protocol.{before_quote, strip_prefix}
use cpp_db.Cli.Display.{
  behind_quote, display_error, display_kind, display_ok, display_pair, display_response,
  display_values, next_value, text_behind, passed, key_back, trim_key,
}
use mathlib.Core.List.{append_assoc, append-nil}
use cpp_db.Network.Server.Lines.{lines}

-- The last byte of a text, 0 if there is none.
unfoldable pub last_byte : Bytes → ℕ
last_byte [] = 0
last_byte (c ∷ []) = c
last_byte (c ∷ d ∷ cs) = last_byte (d ∷ cs)

-- The text does not end in a quote.
abbrev pub EndsUnquoted : Bytes → Type 0
EndsUnquoted text = last_byte text ≢ b'"'

EndsUnquoted-tail : (c : ℕ) (cs : Bytes) → EndsUnquoted (c ∷ cs) → EndsUnquoted cs
unfolding last_byte
EndsUnquoted-tail c [] h = λ e. omega arith
EndsUnquoted-tail c (d ∷ cs) h = h

pub last_byte-append :
    (xs : Bytes) (y : ℕ) (ys : Bytes) → last_byte (xs ++ y ∷ ys) ≡ last_byte (y ∷ ys)
unfolding last_byte
last_byte-append [] y ys = refl
last_byte-append (x ∷ []) y ys = refl
last_byte-append (x ∷ z ∷ xs) y ys = last_byte-append (z ∷ xs) y ys

strip_prefix_sound : (p text : Bytes) → OnResult (strip_prefix p text) (λ rest. text ≡ p ++ rest)
unfolding strip_prefix
strip_prefix_sound [] text = refl
strip_prefix_sound (p ∷ ps) [] = tt
strip_prefix_sound (p ∷ ps) (c ∷ cs) = elim (Bool-cases (p == c)) [
  | inl e ↦
      let same : p ≡ c = ground arith in
      rw (strip_prefix, e)
        (OnResult_mono (strip_prefix ps cs) _ _ (strip_prefix_sound ps cs)
          (λ rest k. ap₂ (λ a b. a ∷ b) (sym same) k))
  | inr e ↦ rw (strip_prefix, e) tt
]

-- What is left of a text when a value begins.
record IsRest (text rest : Bytes) : Type 0 where
  shorter : length rest < length text
  present : rest ≢ []
  ended : EndsUnquoted rest

value-IsRest :
    (rest : Bytes) → EndsUnquoted (codes "\":\"" ++ rest) → IsRest (codes "\":\"" ++ rest) rest
unfolding last_byte
value-IsRest [] h = absurd (h refl)
value-IsRest (c ∷ cs) h = record { shorter = omega arith; present = λ e. cc; ended = h }

next_value-IsRest :
    (before text : Bytes)
    → EndsUnquoted text
    → OnResult (next_value before text) (λ r. IsRest text r.1)
unfolding next_value last_byte
next_value-IsRest before [] h = tt
next_value-IsRest before (c ∷ cs) h =
    (elim (strip_prefix (codes "\":\"") (c ∷ cs))
        as (λ o.
          strip_prefix (codes "\":\"") (c ∷ cs) ≡ o
          → OnResult o (λ rest. c ∷ cs ≡ codes "\":\"" ++ rest)
          → OnResult (next_value before (c ∷ cs)) (λ r. IsRest (c ∷ cs) r.1)) [
            | none ↦ λ e k.
                rw (next_value, e)
                  (OnResult_mono (next_value (c ∷ before) cs) _ _
                    (next_value-IsRest (c ∷ before) cs (EndsUnquoted-tail c cs h))
                    (λ r (i : IsRest cs r.1). record {
                      shorter = let lt = i.shorter in omega arith;
                      present = i.present;
                      ended = i.ended;
                    }))
            | some rest ↦ λ e k.
                rw (next_value, e)
                  (subst (λ text. IsRest text rest) (sym k)
                    (value-IsRest rest (subst EndsUnquoted k h)))
          ])
      refl (strip_prefix_sound (codes "\":\"") (c ∷ cs))

behind_quote-EndsUnquoted : (rest : Bytes) → EndsUnquoted rest → EndsUnquoted (behind_quote rest)
unfolding behind_quote
behind_quote-EndsUnquoted [] h = h
behind_quote-EndsUnquoted (c ∷ cs) h =
    let t = EndsUnquoted-tail c cs h in let k = behind_quote-EndsUnquoted cs t in ground arith

length-behind_quote : (rest : Bytes) → length (behind_quote rest) ≤ length rest
unfolding behind_quote
length-behind_quote [] = omega arith
length-behind_quote (c ∷ cs) = let h = length-behind_quote cs in ground arith

-- Whole lines, if any.
abbrev pub Lines : Bytes → Type 0
Lines text = (text ≡ []) ⊎ (last_byte text ≡ 10)

pub Lines-append : (xs ys : Bytes) → Lines xs → Lines ys → Lines (xs ++ ys)
Lines-append xs [] h k = subst Lines (sym (append-nil xs)) h
Lines-append xs (y ∷ ys) h (inl e) = cc
Lines-append xs (y ∷ ys) h (inr e) = inr (last_byte-append xs y ys ∙ e)

-- A text with a newline behind it.
pub last_byte-line : (xs : Bytes) → last_byte (xs ++ codes "\n") ≡ 10
unfolding last_byte
last_byte-line xs = last_byte-append xs 10 []

Lines-display_pair : (key val : Bytes) → Lines (display_pair key val)
unfolding display_pair
Lines-display_pair key val =
    elim (Bool-cases (str_eq key (codes "status") || str_eq key (codes "kind"))) [
      | inl e ↦ rw (display_pair, e) (inl refl)
      | inr e ↦
          rw (display_pair, e)
            (inr (
              ap (λ text. last_byte (codes "  " ++ text))
                (sym (append_assoc key (codes ": " ++ val) (codes "\n")))
              ∙ last_byte-line (codes "  " ++ (key ++ (codes ": " ++ val)))))
    ]

-- The lines of a pair, with those of the rest of the loop.
shown :
    (pair : Bytes) (o : Option Bytes)
    → Lines pair
    → Returns o Lines
    → Returns {A = Bytes} (elim o [ none ↦ none | some lines ↦ some (pair ++ lines) ]) Lines
shown pair none h k = k
shown pair (some lines) h k = Lines-append pair lines h k

-- A value without a quote behind it: one byte is skipped.
skipped :
    (loop : Bytes → Bytes → Option Bytes) (before rest : Bytes)
    → rest ≢ []
    → ((c : ℕ) (cs : Bytes) → rest ≡ c ∷ cs → Returns (loop (c ∷ before) cs) Lines)
    → Returns {A = Bytes} (elim rest [ [] ↦ none | c ∷ cs ↦ loop (c ∷ before) cs ]) Lines
skipped loop before [] h k = absurd (h refl)
skipped loop before (c ∷ cs) h k = k c cs refl

display_values-Lines :
    (fuel : ℕ) (before text : Bytes)
    → length text < fuel
    → EndsUnquoted text
    → Returns (display_values fuel before text) Lines
unfolding display_values
display_values-Lines zero before text lt h = absurd (omega arith)
display_values-Lines (suc fuel) before text lt h =
    (elim (next_value before text)
        as (λ o.
          next_value before text ≡ o
          → OnResult o (λ r. IsRest text r.1)
          → Returns (display_values (suc fuel) before text) Lines) [
            | none ↦ λ e k. rw (display_values, e) (inl refl)
            | some (keys, rest) ↦ λ e k. elim (Option-cases (before_quote rest)) [
              | inl u ↦
                  rw (display_values, e, u)
                    (skipped (display_values fuel) (b'"' ∷ b':' ∷ b'"' ∷ keys) rest k.present
                      (λ c cs same.
                        display_values-Lines fuel (c ∷ b'"' ∷ b':' ∷ b'"' ∷ keys) cs
                          (let m = ap length same in let n = k.shorter in omega arith)
                          (EndsUnquoted-tail c cs (subst EndsUnquoted same k.ended))))
              | inr (val, u) ↦
                  rw (display_values, e, u)
                    (shown (display_pair (trim_key (key_back keys [])) val)
                      (display_values fuel (b'"' ∷ passed val (b'"' ∷ b':' ∷ b'"' ∷ keys))
                        (behind_quote rest))
                      (Lines-display_pair (trim_key (key_back keys [])) val)
                      (display_values-Lines fuel (b'"' ∷ passed val (b'"' ∷ b':' ∷ b'"' ∷ keys))
                        (behind_quote rest)
                        (let m = length-behind_quote rest in let n = k.shorter in omega arith)
                        (behind_quote-EndsUnquoted rest k.ended)))
            ]
          ])
      refl (next_value-IsRest before text h)

Lines-display_kind : (json : Bytes) → Lines (display_kind json)
unfolding display_kind
Lines-display_kind json = elim (Option-cases (text_behind (codes "\"kind\":\"") json)) [
  | inl u ↦ rw (display_kind, u) (inl refl)
  | inr (kind, u) ↦ rw (display_kind, u) (inr (last_byte-line (codes "  Statement: " ++ kind)))
]

display_ok-Lines : (json : Bytes) → EndsUnquoted json → Returns (display_ok json) Lines
unfolding display_ok last_byte
display_ok-Lines json h =
    (elim (display_values (length json + 1) [] json)
        as (λ o.
          display_values (length json + 1) [] json ≡ o
          → Returns o Lines
          → Returns (display_ok json) Lines) [
            | none ↦ λ e k. absurd k
            | some lines ↦ λ e k.
                rw (display_ok, e)
                  (Lines-append (codes "OK\n") (display_kind json ++ lines) (inr refl)
                    (Lines-append (display_kind json) lines (Lines-display_kind json) k))
          ])
      refl (display_values-Lines (length json + 1) [] json (omega arith) h)

display_error-Lines : (json : Bytes) → Lines (display_error json)
unfolding display_error last_byte
display_error-Lines json = elim (Option-cases (text_behind (codes "\"message\":\"") json)) [
  | inl u ↦ rw (display_error, u) (inr refl)
  | inr (msg, u) ↦ rw (display_error, u) (inr (last_byte-line (codes "ERROR: " ++ msg)))
]

-- Any text that does not end in a quote is shown: the loop over its values ends without a read behind
-- its end, and what is printed is whole lines.
pub display_response-Lines :
    (json : Bytes) → EndsUnquoted json → Returns (display_response json) Lines
unfolding display_response
display_response-Lines json h = elim (Option-cases (text_behind (codes "\"status\":\"") json)) [
  | inl u ↦ rw (display_response, u) (inr (last_byte-line json))
  | inr (status, u) ↦ elim (Bool-cases (str_eq status (codes "error"))) [
    | inl e ↦ rw (display_response, u, e) (display_error-Lines json)
    | inr e ↦ rw (display_response, u, e) (display_ok-Lines json h)
  ]
]
