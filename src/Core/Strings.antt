-- ===== src/Core/Strings.antt =====
-- src/core/string.hpp: `String` objects in memory. An object has a pointer to a block of its own, or the
-- null pointer. A read of a block that is not allocated or behind its end, and a `delete` of such a
-- block, are faults. The other parts take a string as the list of its bytes.
pub mod Texts
pub mod Assign
pub mod Compare
use cpp_db.Core.Places.{update}
use cpp_db.Base.{
  not, Bool, Bytes, Option, [], false, if◌then◌else◌, length, none, some, suc, true, zero, ℕ, ◌+◌,
  ◌++◌, ◌==◌, ◌∷◌,
}

-- `_data` and `_len`
pub record StringObject : Type 0 where
  pub buffer : Option ℕ
  pub len : ℕ

-- The objects by their addresses, the blocks that are allocated, and the address of the next block.
pub record Memory : Type 0 where
  pub objects : ℕ → StringObject
  pub blocks : ℕ → Option Bytes
  pub next : ℕ

-- `String()`
abbrev pub null_string : StringObject
null_string = record { buffer = none; len = 0 }

abbrev pub construct_empty : ℕ → Memory → Memory
construct_empty this m = record m { objects = update m.objects this null_string }

-- `_buffer = new char[_len + 1]` with the bytes and a NUL
unfoldable pub construct_bytes : ℕ → Bytes → Memory → Memory
construct_bytes this text m = record {
  objects = update m.objects this (record { buffer = some m.next; len = length text });
  blocks = update m.blocks m.next (some (text ++ 0 ∷ []));
  next = suc m.next;
}

-- `String(const char*)`: the pointer may be null, and the text has no NUL.
unfoldable pub construct : ℕ → Option Bytes → Memory → Memory
unfolding construct_bytes
construct this none m = construct_empty this m
construct this (some text) m = construct_bytes this text m

-- The bytes that `memcpy` reads from a block.
unfoldable pub read_bytes : ℕ → Bytes → Option Bytes
read_bytes zero text = some []
read_bytes (suc n) [] = none
read_bytes (suc n) (c ∷ cs) = elim (read_bytes n cs) [ none ↦ none | some more ↦ some (c ∷ more) ]

-- `String(const char*, std::size_t)`, from the bytes that are behind the pointer.
unfoldable pub construct_prefix : ℕ → Bytes → ℕ → Memory → Option Memory
unfolding read_bytes construct_bytes
construct_prefix this text len m = elim (read_bytes len text) [
  | none ↦ none
  | some prefix ↦ some (construct_bytes this prefix m)
]

-- The object with a new block that holds so many bytes of another.
unfoldable pub clone : ℕ → ℕ → Option Bytes → Memory → Option Memory
unfolding read_bytes
clone this len none m = none
clone this len (some text) m = elim (read_bytes (len + 1) text) [
  | none ↦ none
  | some bytes ↦ some (record {
    objects = update m.objects this (record { buffer = some m.next; len = len });
    blocks = update m.blocks m.next (some bytes);
    next = suc m.next;
  })
]

-- `String(const String&)`
unfoldable pub construct_copy : ℕ → StringObject → Memory → Option Memory
unfolding clone
construct_copy this other m = elim other.buffer [
  | none ↦
      some
        (record m { objects = update m.objects this (record { buffer = none; len = other.len }) })
  | some a ↦ clone this other.len (m.blocks a) m
]

-- `String(String&&)`
abbrev pub construct_move : ℕ → ℕ → Memory → Memory
construct_move this other m = record m {
  objects = update (update m.objects this (m.objects other)) other null_string;
}

-- `~String`, and `delete[] _data` before an assignment, which sets the pointer that is null here.
unfoldable pub destroy_string : ℕ → Memory → Option Memory
destroy_string this m = elim (m.objects this).buffer [
  | none ↦ some (construct_empty this m)
  | some a ↦ elim (m.blocks a) [
    | none ↦ none
    | some _ ↦ some (construct_empty this (record m { blocks = update m.blocks a none }))
  ]
]

-- `operator=(const String&)`
unfoldable pub assign_copy : ℕ → ℕ → Memory → Option Memory
unfolding destroy_string construct_copy
assign_copy this other m = if this == other then some m else elim (destroy_string this m) [
  | none ↦ none
  | some m1 ↦ construct_copy this (m1.objects other) m1
]

-- `operator=(String&&)`
unfoldable pub assign_move : ℕ → ℕ → Memory → Option Memory
unfolding destroy_string
assign_move this other m = if this == other then some m else elim (destroy_string this m) [
  | none ↦ none
  | some m1 ↦ some (construct_move this other m1)
]

-- `operator=(const char*)`
unfoldable pub assign_text : ℕ → Option Bytes → Memory → Option Memory
unfolding destroy_string construct
assign_text this text m = elim (destroy_string this m) [
  | none ↦ none
  | some m1 ↦ some (construct this text m1)
]

-- `memcmp` of so many bytes, against 0.
unfoldable pub memcmp : ℕ → Bytes → Bytes → Option Bool
memcmp zero xs ys = some true
memcmp (suc n) (x ∷ xs) (y ∷ ys) = let rest = memcmp n xs ys in if x == y then rest else some false
memcmp (suc n) _ _ = none

-- The block behind a pointer, to be read.
abbrev pub block : Memory → Option ℕ → Option Bytes
block m none = none
block m (some a) = m.blocks a

-- `operator==(const String&)`
unfoldable pub equals : ℕ → ℕ → Memory → Option Bool
unfolding memcmp
equals this other m =
    let s = m.objects this in
    let t = m.objects other in
    if not (s.len == t.len)
    then some false
    else if s.len == 0
    then some true
    else elim (block m s.buffer) [
      | none ↦ none
      | some xs ↦ elim (block m t.buffer) [ none ↦ none | some ys ↦ memcmp s.len xs ys ]
    ]

-- `operator==(const char*)`, with the text behind the pointer unless it is null.
unfoldable pub equals_text : ℕ → Option Bytes → Memory → Option Bool
unfolding memcmp
equals_text this none m = some ((m.objects this).len == 0)
equals_text this (some text) m =
    let s = m.objects this in
    if not (s.len == length text)
    then some false
    else if s.len == 0
    then some true
    else elim (block m s.buffer) [ none ↦ none | some xs ↦ memcmp s.len xs (text ++ 0 ∷ []) ]
