-- ===== src/Core/Dict/Buckets.antt =====
-- One of the two tables: a vector of chains. Its size is a power of two, and a key stands in the
-- bucket that the low bits of its hash name.
pub mod Laws
use Prim.Native.Nat.{bit_and, bit_xor}
use mnemos.Prelude.{ℕ, suc, ◌+◌, ◌-◌, ◌*◌, ◌%◌, ◌^◌, Bool, List, [], ◌∷◌, length, get_or, set}
use mnemos.Prelude.Bytes.{Bytes}
use mnemos.Core.Dict.Links.{Chain}

abbrev pub Table {ℓ} : Type ℓ → Type ℓ
Table V = List (Chain V)

-- FNV-1a on 64 bits. The loop, on the value so far.
hash_from : ℕ → Bytes → ℕ
hash_from h [] = h
hash_from h (c ∷ s) = hash_from (bit_xor h c * 1099511628211 % 2 ^ 64) s

unfoldable pub hash : Bytes → ℕ
unfolding hash_from
hash key = hash_from 1469598103934665603 key

-- `h & mask(t)` for a table of n buckets, n not 0
unfoldable pub slot : Bytes → ℕ → ℕ
slot key n = bit_and (hash key) (n - 1)

module _ {ℓ} {V : Type ℓ} where
  abbrev pub bucket : Table V → ℕ → Chain V
  bucket t i = get_or t i []

  -- The bucket of a key.
  abbrev pub home : Table V → Bytes → Chain V
  home t key = bucket t (slot key (length t))

  -- A new link at the front of the key's bucket.
  unfoldable pub push_entry : Bytes → V → Table V → Table V
  push_entry key v t = set t (slot key (length t)) ((key, v) ∷ home t key)

  -- The loop of `rehashSteps` over one chain.
  unfoldable pub move_chain : Chain V → Table V → Table V
  move_chain [] t = t
  move_chain ((k, v) ∷ c) t = move_chain c (push_entry k v t)
