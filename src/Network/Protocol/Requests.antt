-- ===== src/Network/Protocol/Requests.antt =====
-- src/network/client.cpp and protocol.cpp: a statement that is sent is the statement that is read.
use cpp_db.Base.{
  length-append, All, List, [], ap, arith, codes, false, length, refl, some, suc, zero, ℕ, ◌++◌,
  ◌<◌, ◌∷◌, ◌≡◌, ◌≢◌, ◌≤◌, Bytes, Option, none, take,
}
use cpp_db.Network.Protocol.{
  quoted, parse_request_sql, before_quote, is_exit_request, json_get_string,
}
use cpp_db.Network.Client.{request_text}
use cpp_db.Network.Server.{c_string, fill_line, recv_line}

take-same {ℓ} : {A : Type ℓ} (n : ℕ) (xs : List A) → length xs ≤ n → take n xs ≡ xs
take-same zero [] h = refl
take-same (suc n) [] h = refl
take-same zero (x ∷ xs) h = absurd (omega arith)
take-same (suc n) (x ∷ xs) h = ap (λ ys. x ∷ ys) (take-same n xs (omega arith))

-- The text before and behind the statement.
abbrev pub request_head : Bytes
request_head = codes "{\"type\":\"sql\",\"sql\":\""

abbrev pub request_tail : Bytes
request_tail = codes "\"}"

-- A statement of at most 8167 bytes fits the client's buffer.
pub request_text_whole :
    (sql : Bytes) → length sql < 8168 → request_text sql ≡ request_head ++ (sql ++ request_tail)
unfolding request_text
request_text_whole sql h =
    take-same 8191 (request_head ++ (sql ++ request_tail))
      (omega (arith, length-append sql request_tail))

pub before_quote-append :
    (text rest : Bytes) → All (λ c. c ≢ b'"') text → before_quote (text ++ b'"' ∷ rest) ≡ some text
unfolding before_quote
before_quote-append [] rest h = refl
before_quote-append (c ∷ cs) rest (h, k) = let e = before_quote-append cs rest k in ground arith

type_of_request : (sql : Bytes) → json_get_string (request_text sql) (codes "type") ≡ codes "sql"
unfolding request_text json_get_string
type_of_request sql = refl

-- No statement that a client sends is taken for the request to exit, whatever its text is.
pub is_exit_request-request_text : (sql : Bytes) → is_exit_request (request_text sql) ≡ false
unfolding is_exit_request
is_exit_request-request_text sql = rw (type_of_request sql) refl

pub first_value :
    (text rest : Bytes) → All (λ c. c ≢ b'"') text → quoted (some (text ++ b'"' ∷ rest)) ≡ text
unfolding before_quote
first_value text rest h =
    ap (λ (o : Option Bytes). elim o [ none ↦ [] | some value ↦ value ])
      (before_quote-append text rest h)

sql_of_request :
    (sql : Bytes)
    → length sql < 8168
    → All (λ c. c ≢ b'"') sql
    → json_get_string (request_text sql) (codes "sql") ≡ sql
unfolding json_get_string
sql_of_request sql short plain =
    rw (request_text_whole sql short) (first_value sql (codes "}") plain)

-- A statement that the client's buffer holds, without a quote, is read back as it was sent.
pub parse_request_sql-request_text :
    (sql : Bytes)
    → length sql < 8168
    → All (λ c. c ≢ b'"') sql
    → parse_request_sql (request_text sql) ≡ sql
unfolding parse_request_sql
parse_request_sql-request_text sql short plain =
    rw (parse_request_sql, type_of_request sql) (sql_of_request sql short plain)

-- The bytes that neither end a line nor a C string, and that `recv_line` does not drop.
abbrev pub InLine : ℕ → Type 0
InLine c = (c ≢ 0) × (c ≢ 10) × (c ≢ 13)

c_string-same : (cs : Bytes) → All InLine cs → c_string cs ≡ cs
unfolding c_string
c_string-same [] h = refl
c_string-same (c ∷ cs) ((h, _, _), k) = let e = c_string-same cs k in ground arith

fill_line-append :
    (room : ℕ) (line rest : Bytes)
    → All InLine line
    → length line < room
    → fill_line room (line ++ 10 ∷ rest) ≡ (line, rest)
unfolding fill_line
fill_line-append zero line rest h lt = absurd (omega arith)
fill_line-append (suc room) [] rest h lt = refl
fill_line-append (suc room) (c ∷ cs) rest ((_, h, g), k) lt =
    let e = fill_line-append room cs rest k (omega arith) in ground arith

-- A line that the buffer holds is received as it was sent, and the next one is left to read.
pub recv_line-append :
    (line rest : Bytes)
    → All InLine line
    → length line < 8191
    → recv_line (line ++ 10 ∷ rest) ≡ (line, rest)
unfolding recv_line
recv_line-append line rest h lt =
    rw (recv_line, fill_line-append 8191 line rest h lt, c_string-same line h) refl
