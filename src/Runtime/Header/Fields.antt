-- ===== src/Runtime/Header/Fields.antt =====
-- For the fields of a meta word, crates/wsharp-runtime/src/header.rs.
use wsharp.Prelude.{ℕ, ◌^◌, ◌<◌, ◌≡◌, false, arith}
use wsharp.Runtime.Header.{meta_word, type_id_of_meta, flags_of_meta, rc_of_meta, is_forwarded_meta}

-- The fields of a new word are what it was made of; its count is 0, and it is not forwarded.
pub meta_word-fields :
    (id flags : ℕ)
    → id < 2 ^ 32
    → flags < 2 ^ 8
    → (type_id_of_meta (meta_word id flags) ≡ id)
      × (flags_of_meta (meta_word id flags) ≡ flags)
      × (rc_of_meta (meta_word id flags) ≡ 0)
      × (is_forwarded_meta (meta_word id flags) ≡ false)
unfolding meta_word type_id_of_meta flags_of_meta rc_of_meta is_forwarded_meta
meta_word-fields id flags h k = (omega arith, omega arith, omega arith, ground arith)

-- `m` and `n` have the same type id, flags and forwarding bit.
abbrev pub SameButCount : ℕ → ℕ → Type 0
SameButCount m n =
    (type_id_of_meta m ≡ type_id_of_meta n)
    × (flags_of_meta m ≡ flags_of_meta n)
    × (is_forwarded_meta m ≡ is_forwarded_meta n)
