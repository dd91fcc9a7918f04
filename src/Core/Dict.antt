-- ===== src/Core/Dict.antt =====
-- src/core/dict.h: the hash table with incremental rehashing. A chain is the list of its entries,
-- first link first; a method that changes the object returns the new one beside its result.
pub mod Links
pub mod Buckets
pub mod Valid
pub mod Rehash
pub mod Resize
pub mod Writes
pub mod Methods
pub mod Random
pub mod Scan
use mnemos.Prelude.{
  ℕ, zero, suc, ◌+◌, ◌-◌, ◌*◌, ◌%◌, ◌^◌, Bool, true, false, Option, none, some, List, [], ◌∷◌, ◌++◌,
  length, drop, get_or, set, replicate, max, ltb, leb, ◌==◌, if◌then◌else◌,
}
use mathlib.Core.List.{flatten}
use mnemos.Prelude.Bytes.{Bytes}
use mnemos.Core.Dict.Links.{Chain, or_else, find_link, assign_link, erase_link}
use mnemos.Core.Dict.Buckets.{Table, slot, push_entry, bucket, home, move_chain}

-- `rehash_index` is `none` for -1.
pub record Dict {ℓ} (V : Type ℓ) : Type ℓ where
  pub table0 : Table V
  pub table1 : Table V
  pub used0 : ℕ
  pub used1 : ℕ
  pub rehash_index : Option ℕ

abbrev pub initial_size : ℕ
initial_size = 4

-- Where the inner loop of `rehashSteps` stops: at a bucket that is not empty, with the visits left;
-- at the end of the table; or where the visits are used up.
pub data Skip : Type 0 where
  found : ℕ → ℕ → Skip
  ended : ℕ → Skip
  exhausted : ℕ → Skip

-- The loop `while (p < n) p *= 2`, on fuel.
double_up_to : ℕ → ℕ → ℕ → ℕ
double_up_to zero p n = p
double_up_to (suc fuel) p n = let more = double_up_to fuel (p * 2) n in if ltb p n then more else p

-- `n` rounds are enough, as `p` grows by at least one in each.
pub next_power_of_two : ℕ → ℕ
unfolding double_up_to
next_power_of_two n = double_up_to n initial_size n

module _ {ℓ} {V : Type ℓ} where
  abbrev pub is_rehashing : Dict V → Bool
  is_rehashing d = elim d.rehash_index [ none ↦ false | some i ↦ true ]

  abbrev pub size : Dict V → ℕ
  size d = d.used0 + d.used1

  abbrev pub bucket_count : Dict V → ℕ
  bucket_count d = length d.table0 + length d.table1

  -- The default constructor.
  unfoldable pub new : Dict V
  new = record {
    table0 = replicate initial_size [];
    table1 = [];
    used0 = 0;
    used1 = 0;
    rehash_index = none;
  }

  -- The inner loop, over the buckets from number `i` on.
  pub skip_empty : Table V → ℕ → ℕ → Skip
  skip_empty [] i visits = ended i
  skip_empty ([] ∷ t) i visits =
      let rest = skip_empty t (i + 1) (visits - 1) in
      if visits - 1 == 0 then exhausted (i + 1) else rest
  skip_empty ((e ∷ c) ∷ t) i visits = found i visits

  -- One bucket goes over to table 1.
  pub move_bucket : Dict V → ℕ → Dict V
  move_bucket d i =
      let c = bucket d.table0 i in
      record {
        table0 = set d.table0 i [];
        table1 = move_chain c d.table1;
        used0 = d.used0 - length c;
        used1 = d.used1 + length c;
        rehash_index = some (i + 1);
      }

  -- The end of `rehashSteps`: table 1 takes the place of an empty table 0.
  pub finish : Dict V → Dict V
  finish d =
      if d.used0 == 0
      then record {
        table0 = d.table1;
        table1 = [];
        used0 = d.used1;
        used1 = 0;
        rehash_index = none;
      }
      else d

  -- The outer loop, at the rehash index `i`, with its end. The early return leaves the end out.
  pub rehash_loop : ℕ → ℕ → Dict V → ℕ → Dict V
  rehash_loop zero visits d i = finish d
  rehash_loop (suc n) visits d i =
      if d.used0 == 0 then finish d else elim (skip_empty (drop i d.table0) i visits) [
        | found j left ↦ rehash_loop n left (move_bucket d j) (j + 1)
        | ended j ↦ finish (record d { rehash_index = some j })
        | exhausted j ↦ record d { rehash_index = some j }
      ]

  pub rehash_from : Option ℕ → ℕ → Dict V → Dict V
  rehash_from none n d = d
  rehash_from (some i) n d = rehash_loop n (n * 10) d i

  -- The result of the call is `is_rehashing` of the new state.
  unfoldable pub rehash_steps : ℕ → Dict V → Dict V
  unfolding rehash_from rehash_loop skip_empty move_bucket finish move_chain push_entry
  rehash_steps n d = rehash_from d.rehash_index n d

  unfoldable pub rehash_step : Dict V → Dict V
  unfolding rehash_steps
  rehash_step d = rehash_steps 1 d

  -- The search in one table; an empty one is passed over.
  pub find_in : Table V → Bytes → Option V
  unfolding find_link
  find_in [] key = none
  find_in (c ∷ t) key = find_link key (home (c ∷ t) key)

  -- Both tables, the second one only during a rehash.
  pub lookup : Dict V → Bytes → Option V
  lookup d key =
      or_else (find_in d.table0 key) (if is_rehashing d then find_in d.table1 key else none)

  unfoldable pub find : Dict V → Bytes → Option V × Dict V
  unfolding rehash_step lookup find_in
  find d key = if size d == 0 then (none, d) else (lookup (rehash_step d) key, rehash_step d)

  -- A write through the pointer that `find` returned into the table that holds the key.
  unfoldable pub assign : Dict V → Bytes → V → Dict V
  assign d key v = elim (find_in d.table0 key) [
    | some _ ↦ record d {
      table0 = set d.table0 (slot key (length d.table0)) (assign_link key v (home d.table0 key));
    }
    | none ↦ record d {
      table1 = set d.table1 (slot key (length d.table1)) (assign_link key v (home d.table1 key));
    }
  ]

  unfoldable pub resize_to : ℕ → Dict V → Dict V
  resize_to n d = record d { table1 = replicate n []; used1 = 0; rehash_index = some 0 }

  unfoldable pub expand_if_needed : Dict V → Dict V
  expand_if_needed d =
      if is_rehashing d
      then d
      else if ltb d.used0 (length d.table0)
      then d
      else resize_to (length d.table0 * 2) d

  unfoldable pub shrink_if_needed : Dict V → Dict V
  shrink_if_needed d =
      if is_rehashing d
      then d
      else if leb (length d.table0) initial_size
      then d
      else if ltb (length d.table0) (d.used0 * 10)
      then d
      else resize_to (max initial_size (next_power_of_two (d.used0 + 1))) d

  -- New keys go into table 1 during a rehash.
  pub add_entry : Dict V → Bytes → V → Dict V
  add_entry d key v =
      if is_rehashing d
      then record d { table1 = push_entry key v d.table1; used1 = d.used1 + 1 }
      else record d { table0 = push_entry key v d.table0; used0 = d.used0 + 1 }

  -- After the search of `insert`: an overwrite, or a new link.
  pub insert_found : Option V → Dict V → Bytes → V → Bool × Dict V
  insert_found (some _) d key v = (false, assign d key v)
  insert_found none d key v = (true, add_entry (expand_if_needed d) key v)

  -- The result says whether the key is new.
  unfoldable pub insert : Dict V → Bytes → V → Bool × Dict V
  unfolding find insert_found assign assign_link expand_if_needed resize_to add_entry push_entry
  insert d key v = let (existing, d') = find (rehash_step d) key in insert_found existing d' key v

  -- The key is unlinked from the table that holds it.
  pub unlink : Dict V → Bytes → Dict V
  unlink d key = elim (find_in d.table0 key) [
    | some _ ↦ record d {
      table0 = set d.table0 (slot key (length d.table0)) (erase_link key (home d.table0 key));
      used0 = d.used0 - 1;
    }
    | none ↦ record d {
      table1 = set d.table1 (slot key (length d.table1)) (erase_link key (home d.table1 key));
      used1 = d.used1 - 1;
    }
  ]

  -- After the search of `erase`.
  pub erase_found : Option V → Dict V → Bytes → Bool × Dict V
  erase_found (some _) d key = (true, shrink_if_needed (unlink d key))
  erase_found none d key = (false, d)

  unfoldable pub erase : Dict V → Bytes → Bool × Dict V
  unfolding rehash_step lookup find_in erase_found unlink erase_link shrink_if_needed resize_to
      next_power_of_two
  erase d key =
      if size d == 0
      then (false, d)
      else erase_found (lookup (rehash_step d) key) (rehash_step d) key

  unfoldable pub clear : Dict V → Dict V
  unfolding new
  clear d = new

  -- The entries that `forEach` visits, in its order.
  unfoldable pub entries : Dict V → List (Bytes × V)
  entries d = flatten d.table0 ++ flatten d.table1
