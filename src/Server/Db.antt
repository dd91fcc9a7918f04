-- ===== src/Server/Db.antt =====
-- src/server/db.h and db.cpp: one keyspace and its expiry table. `C` stands for the collections of
-- a value, and `events` collects the calls of the two callbacks, in their order.
pub mod Changes
pub mod Lookup
pub mod Methods
pub mod Expiry
use mnemos.Prelude.{
  ℕ, zero, suc, ◌+◌, ◌-◌, ◌*◌, ◌/◌, Bool, true, false, ◌||◌, not, Option, none, some, List, [], ◌∷◌,
  ◌++◌, length, map, min, leb, ◌==◌, if◌then◌else◌,
}
use mnemos.Prelude.Bytes.{Bytes}
use mnemos.Prelude.Int.{ℤ, pos, negsuc, neg_part, pos_part, ltb_ℤ, leb_ℤ, neg_of}
use mnemos.Core.Object.{Value, touch}
use mnemos.Core.Dict
use mnemos.Core.Dict.{Dict}
use mnemos.Core.Dict.Random.{random_entry}

abbrev pub active_expire_sample_size : ℕ
active_expire_sample_size = 20

abbrev pub active_expire_threshold_percent : ℕ
active_expire_threshold_percent = 25

abbrev pub active_expire_max_iterations : ℕ
active_expire_max_iterations = 16

pub data Event : Type 0 where
  expired new_key : Bytes → Event

-- `a - b` on integers
abbrev minus_ℤ : ℤ → ℤ → ℤ
minus_ℤ a b =
    let up = pos_part a + neg_part b in
    let down = pos_part b + neg_part a in
    if leb down up then pos (up - down) else neg_of (down - up)

unfoldable pub or_minus_one : Option ℤ → ℤ
or_minus_one none = negsuc 0
or_minus_one (some at_ms) = at_ms

-- What is left of the time, from `expireAtMs`.
remaining_ms : ℤ → ℤ → ℤ
remaining_ms at_ms now_ms =
    if ltb_ℤ at_ms (pos 0)
    then negsuc 0
    else if ltb_ℤ (minus_ℤ at_ms now_ms) (pos 0)
    then pos 0
    else minus_ℤ at_ms now_ms

pub record Database (C : Type 0) : Type 0 where
  pub dict : Dict (Value C)
  pub expires : Dict ℤ
  pub expiration_enabled : Bool
  pub events : List Event

module _ {C : Type 0} where
  -- `on_expired_` and `on_new_key_`
  told : Event → Database C → Database C
  told e d = record d { events = d.events ++ e ∷ [] }

  told_if : Bool → Event → Database C → Database C
  unfolding told
  told_if true e d = told e d
  told_if false e d = d

  -- The two erases and the callback of a key whose time is over.
  pub expire : Database C → Bytes → Database C
  unfolding told
  expire d key =
      told (expired key)
        (record d { expires = (Dict.erase d.expires key).1; dict = (Dict.erase d.dict key).1 })

  -- The deadline is over: a replica reports the key as gone and leaves it in place.
  expire_over : Bool → Database C → Bytes → Bool × Database C
  unfolding expire
  expire_over false d key = (true, d)
  expire_over true d key = (true, expire d key)

  -- `expireIfNeeded` after the search in `expires_`
  expire_found : Option ℤ → Database C → Bytes → ℤ → Bool × Database C
  unfolding expire_over
  expire_found none d key now_ms = (false, d)
  expire_found (some at_ms) d key now_ms =
      if ltb_ℤ now_ms at_ms then (false, d) else expire_over d.expiration_enabled d key

  unfoldable pub expire_if_needed : Database C → Bytes → ℤ → Bool × Database C
  unfolding expire_found
  expire_if_needed d key now_ms =
      let (at_ms, e) = Dict.find d.expires key in
      expire_found at_ms (record d { expires = e }) key now_ms

  -- The value that was found is touched in place.
  read_found : Option (Value C) → Database C → Bytes → ℤ → Option (Value C) × Database C
  read_found none d key now_ms = (none, d)
  read_found (some v) d key now_ms =
      (some (touch now_ms v), record d { dict = Dict.assign d.dict key (touch now_ms v) })

  read_live : Bool → Database C → Bytes → ℤ → Option (Value C) × Database C
  unfolding read_found
  read_live true d key now_ms = (none, d)
  read_live false d key now_ms =
      let (v, t) = Dict.find d.dict key in read_found v (record d { dict = t }) key now_ms

  unfoldable pub lookup_read : Database C → Bytes → ℤ → Option (Value C) × Database C
  unfolding expire_if_needed read_live
  lookup_read d key now_ms =
      let (gone, e) = expire_if_needed d key now_ms in read_live gone e key now_ms

  unfoldable pub set_key : Database C → Bytes → Value C → Database C
  unfolding told_if
  set_key d key value =
      let (added, t) = Dict.insert d.dict key value in
      told_if added (new_key key) (record d { dict = t; expires = (Dict.erase d.expires key).1 })

  unfoldable pub overwrite_value : Database C → Bytes → Value C → Database C
  unfolding told_if
  overwrite_value d key value =
      let (added, t) = Dict.insert d.dict key value in
      told_if added (new_key key) (record d { dict = t })

  unfoldable pub erase : Database C → Bytes → Bool × Database C
  erase d key =
      let (erased, t) = Dict.erase d.dict key in
      (erased, record d { expires = (Dict.erase d.expires key).1; dict = t })

  is_some : Option (Value C) → Bool
  is_some none = false
  is_some (some v) = true

  unfoldable pub exists : Database C → Bytes → ℤ → Bool × Database C
  unfolding is_some lookup_read
  exists d key now_ms = let (v, e) = lookup_read d key now_ms in (is_some v, e)

  unfoldable pub set_expire_at : Database C → Bytes → ℤ → Database C
  set_expire_at d key at_ms = record d { expires = (Dict.insert d.expires key at_ms).1 }

  unfoldable pub persist : Database C → Bytes → Bool × Database C
  persist d key = let (had, e) = Dict.erase d.expires key in (had, record d { expires = e })

  -- The search may move entries between the tables of `expires_`, though the method is const.
  unfoldable pub expire_at_ms : Database C → Bytes → ℤ × Database C
  unfolding or_minus_one
  expire_at_ms d key =
      let (at_ms, e) = Dict.find d.expires key in (or_minus_one at_ms, record d { expires = e })

  ttl_found : Option (Value C) → Database C → Bytes → ℤ → ℤ × Database C
  unfolding expire_at_ms remaining_ms
  ttl_found none d key now_ms = (negsuc 1, d)
  ttl_found (some v) d key now_ms =
      let (at_ms, e) = expire_at_ms d key in (remaining_ms at_ms now_ms, e)

  unfoldable pub ttl_ms : Database C → Bytes → ℤ → ℤ × Database C
  unfolding lookup_read ttl_found
  ttl_ms d key now_ms = let (v, e) = lookup_read d key now_ms in ttl_found v e key now_ms

  unfoldable pub flush : Database C → Database C
  flush d = record d { dict = Dict.clear d.dict; expires = Dict.clear d.expires }

  unfoldable pub keys : Database C → List Bytes
  keys d = map (λ e. e.0) (Dict.entries d.dict)
