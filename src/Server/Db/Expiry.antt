-- ===== src/Server/Db/Expiry.antt =====
-- `activeExpireCycle` of src/server/db.cpp. The numbers that the generator draws are a parameter.
pub mod Cycle
use mnemos.Prelude.{
  ℕ, zero, suc, ◌+◌, ◌-◌, ◌*◌, ◌/◌, ◌<◌, ◌≡◌, refl, ap, sym, ◌∙◌, subst, Bool, true, false, ◌&&◌,
  ◌||◌, not, Option, none, some, List, [], ◌∷◌, ◌++◌, append-nil, append_assoc, if◌then◌else◌,
  arith, length, length-append, map, min, leb, ltb, ◌==◌, All, All-append, Bool-cases, Option-cases,
  inl, inr,
}
use mnemos.Prelude.Bytes.{Bytes, eqb}
use mnemos.Prelude.Int.{ℤ, leb_ℤ, ltb_ℤ}
use mnemos.Core.Object.{Value}
use mnemos.Core.Dict.{Dict, size}
use mnemos.Core.Dict.Valid.{IsValid, view}
use mnemos.Core.Dict.Random.{random_entry, Picks, random_entry-Picks}
use mnemos.Server.Db.{
  Database, Event, expired, expire, active_expire_sample_size, active_expire_threshold_percent,
  active_expire_max_iterations,
}
use mnemos.Server.Db.Changes.{IsSound, value, deadline, Becomes}

-- One round of samples: how many, the keys to delete, and the number of the next draw.
pub record Sample : Type 0 where
  pub sampled : ℕ
  pub doomed : List Bytes
  pub at : ℕ

-- An entry of the sample before those of `s`.
sample_entry : Bytes × ℤ → ℤ → Sample → Sample
sample_entry (key, at_ms) now_ms s = record s {
  sampled = suc s.sampled;
  doomed = if leb_ℤ at_ms now_ms then key ∷ s.doomed else s.doomed;
}

-- The sampling stops where there is no entry.
sample_found : Option (Bytes × ℤ) → ℤ → ℕ → Sample → Sample
unfolding sample_entry
sample_found none now_ms after rest = record { sampled = 0; doomed = []; at = after }
sample_found (some e) now_ms after rest = sample_entry e now_ms rest

collect : (ℕ → ℕ) → ℕ → Dict ℤ → ℤ → ℕ → Sample
unfolding sample_found
collect draws zero expires now_ms at = record { sampled = 0; doomed = []; at = at }
collect draws (suc n) expires now_ms at =
    let (entry, after) = random_entry draws expires at in
    sample_found entry now_ms after (collect draws n expires now_ms after)

module _ {C : Type 0} where
  delete_all : List Bytes → Database C → Database C
  unfolding expire
  delete_all [] d = d
  delete_all (key ∷ keys) d = delete_all keys (expire d key)

  -- The loop over the iterations, with the keys deleted so far.
  iterations : (ℕ → ℕ) → ℕ → Database C → ℤ → ℕ → ℕ → ℕ × Database C
  unfolding collect delete_all
  iterations draws zero d now_ms total at = (total, d)
  iterations draws (suc n) d now_ms total at =
      let s = collect draws (min (size d.expires) active_expire_sample_size) d.expires now_ms at in
      let deleted = length s.doomed in
      let rest = iterations draws n (delete_all s.doomed d) now_ms (total + deleted) s.at in
      if size d.expires == 0
      then (total, d)
      else if s.sampled == 0
      then (total + deleted, delete_all s.doomed d)
      else if leb (deleted * 100 / s.sampled) active_expire_threshold_percent
      then (total + deleted, delete_all s.doomed d)
      else rest

  unfoldable pub active_expire_cycle : (ℕ → ℕ) → Database C → ℤ → ℕ → ℕ × Database C
  unfolding iterations
  active_expire_cycle draws d now_ms at =
      if not d.expiration_enabled || size d.expires == 0
      then (0, d)
      else iterations draws active_expire_max_iterations d now_ms 0 at
