-- ===== src/Licensing/Entitlements/Laws.antt =====
-- What an installation may do, and how the clock and the device count bear on it.
use net_ops_guard.Prelude.{
  ℕ, ◌+◌, ◌≤◌, ◌<◌, ◌≡◌, String, Option, some, true, false, List, [], ◌∷◌, arith, Option-cases, inl,
  inr, if◌then◌else◌,
}
use net_ops_guard.Licensing.Verify.{expired, verify, LicenseStatus}
use net_ops_guard.Licensing.Verify.Laws.{verify-expired_mono}
use net_ops_guard.Licensing.Entitlements.{
  license, Entitlements, PlatformLicense, Db, World, effective_now, current_row, current,
  check_can_add_device, of_status, entitled, bound, granted, community, get_or_create_row,
}

-- The high-water mark never falls, and expiry is judged at the mark.
effective_later :
    (before after : ℕ) (highest : Option ℕ)
    → (effective_now before highest).0 ≤ (effective_now after (effective_now before highest).1).0
unfolding effective_now
effective_later before after highest = ground arith

-- Adding devices one request after another: a request is served only if the check allows it.
abbrev pub add_devices : Entitlements → ℕ → ℕ → ℕ
add_devices ent count adding =
    if (check_can_add_device (some (ent, count)) adding).allowed then count + adding else count

-- The inventory after a sequence of additions.
pub add_all : Entitlements → ℕ → List ℕ → ℕ
add_all ent count [] = count
add_all ent count (n ∷ ns) = add_all ent (add_devices ent count n) ns

-- An installation with more devices than its limit, but fewer than its grandfathered count, may
-- add a device: it can grow back to the grandfathered count.
pub grandfathered_growth :
    (ent : Entitlements) (limit count : ℕ)
    → ent.device_limit ≡ some limit
    → limit ≤ count
    → count < ent.grandfathered_device_count
    → (check_can_add_device (some (ent, count)) 1).allowed ≡ true
unfolding check_can_add_device
grandfathered_growth ent limit count l over below = ground arith

module _ (world : World) where
  of_status-expired :
      (s : LicenseStatus) (g : ℕ)
      → (of_status world s g).problem ≡ license (some expired)
      → s.reason ≡ some expired
  unfolding of_status entitled bound granted community
  of_status-expired s g h = ground arith

  expired-of_status :
      (s : LicenseStatus) (g : ℕ)
      → s.reason ≡ some expired
      → s.valid ≡ false
      → (of_status world s g).problem ≡ license (some expired)
  unfolding of_status entitled bound granted community
  expired-of_status s g r v = ground arith

  -- The two calls on the licence row, with the text and the mark of the row as they are read.
  expired_text :
      (before after : ℕ) (highest : Option ℕ) (text : String) (g : ℕ)
      → let now = (effective_now before highest).0 in
        let later = (effective_now after (effective_now before highest).1).0 in
        (of_status world (verify world.formats now text) g).problem ≡ license (some expired)
        → (of_status world (verify world.formats later text) g).problem ≡ license (some expired)
  expired_text before after highest text g h =
      let now = (effective_now before highest).0 in
      let later = (effective_now after (effective_now before highest).1).0 in
      let (still, refused) =
        verify-expired_mono world.formats now later text
          (omega (arith, effective_later before after highest))
          (of_status-expired (verify world.formats now text) g h) in
      expired-of_status (verify world.formats later text) g still refused

  expired_row :
      (before after : ℕ) (row : PlatformLicense)
      → (current_row world before row).0.problem ≡ license (some expired)
      → (current_row world after (current_row world before row).1).0.problem
        ≡ license (some expired)
  unfolding current_row community
  expired_row before after row h = elim (Option-cases row.license_text) [
    | inl none' ↦ ground arith
    | inr (text, e) ↦
        ground (
          arith,
          expired_text before after row.highest_seen_utc text row.grandfathered_device_count,
        )
  ]

  -- Judged expired at a call, a licence stays expired at every later call, also if the clock of
  -- the machine has been set back in between.
  pub expired_for_good :
      (before after : ℕ) (db : Db)
      → (current world before db).0.problem ≡ license (some expired)
      → (current world after (current world before db).1).0.problem ≡ license (some expired)
  unfolding current
  expired_for_good before after db h =
      expired_row before after (get_or_create_row before db.license) h
