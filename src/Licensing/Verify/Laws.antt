-- ===== src/Licensing/Verify/Laws.antt =====
-- What a verified licence is, and how verification depends on the time.
use mathlib.Core.Path.{subst}
use net_ops_guard.Prelude.{
  ℕ, ◌≤◌, ◌≡◌, refl, sym, ◌∙◌, ap, ◌⊎◌, ◌↔◌, String, Option, none, some, Bool, true, false, List,
  [], ◌∷◌, arith, str_eq_iff, is_some,
}
use net_ops_guard.Licensing.Verify.{
  Formats, Payload, Contents, unreadable, not_an_object, object, genuine, expired, LicenseStatus,
  product_id, judge_expiry, check_expiry, check_contents, after_signature, check_parts, verify,
  is_text, is_format_one,
}

-- The time has not passed the expiry of the payload, if it names one.
abbrev pub InTime : Formats → ℕ → Option String → Type 0
InTime formats now none = Unit
InTime formats now (some expires) =
    (expires ≡ "") ⊎ ((e : ℕ) × (formats.fromisoformat expires ≡ some e) × (now ≤ e))

abbrev pub production_key : String
production_key = "jEzgXixh5BAc26lr6vMfvYIQQLauZ8N-g9go8VuRscU"

pub record IsGenuine (formats : Formats) (now : ℕ) (parts : List String) (key : String)
    (payload : Payload) : Type 0 where
  pub payload_b64 : String
  pub signature_b64 : String
  pub sections : parts ≡ payload_b64 ∷ signature_b64 ∷ []
  pub signed : formats.check_signature key signature_b64 payload_b64 ≡ genuine
  pub contents : formats.loads payload_b64 ≡ object payload
  pub product : payload.product ≡ some product_id
  pub format : payload.format ≡ some 1
  pub in_time : InTime formats now payload.expires_at

module _ (formats : Formats) (now : ℕ) where
  check_expiry-InTime :
      (expires : Option String) (payload : Payload) (is_dev : Bool)
      → (check_expiry formats now expires payload is_dev).valid ≡ true
      → InTime formats now expires
  unfolding check_expiry
  check_expiry-InTime none payload is_dev h = tt
  check_expiry-InTime (some expires) payload is_dev h = ground (arith, str_eq_iff expires "")

  check_expiry-payload :
      (expires : Option String) (payload : Payload) (is_dev : Bool)
      → (check_expiry formats now expires payload is_dev).valid ≡ true
      → (check_expiry formats now expires payload is_dev).payload ≡ some payload
  unfolding check_expiry
  check_expiry-payload expires payload is_dev h = ground arith

  is_text-eq : (wanted : String) (o : Option String) → is_text wanted o ≡ true → o ≡ some wanted
  is_text-eq wanted none h = cc
  is_text-eq wanted (some s) h = ap some ((str_eq_iff s wanted).0 h)

  is_format_one-eq : (o : Option ℕ) → is_format_one o ≡ true → o ≡ some 1
  is_format_one-eq o h = ground arith

  record IsChecked (c : Contents) (is_dev : Bool) (payload : Payload) : Type 0 where
    contents : c ≡ object payload
    product : payload.product ≡ some product_id
    format : payload.format ≡ some 1
    in_time : (check_expiry formats now payload.expires_at payload is_dev).valid ≡ true

  check_contents-valid :
      (c : Contents) (is_dev : Bool)
      → (check_contents formats now c is_dev).valid ≡ true
      → (payload : Payload) × ((check_contents formats now c is_dev).payload ≡ some payload)
        × IsChecked c is_dev payload
  unfolding check_contents
  check_contents-valid unreadable is_dev h = cc
  check_contents-valid not_an_object is_dev h = cc
  check_contents-valid (object p) is_dev h = (
    p,
    ground (arith, check_expiry-payload p.expires_at p is_dev),
    record {
      contents = refl;
      product = ground (arith, is_text-eq product_id p.product);
      format = ground (arith, is_format_one-eq p.format);
      in_time = ground arith;
    },
  )

  check_contents-key : (c : Contents) → (check_contents formats now c false).development_key ≡ false
  unfolding check_contents check_expiry judge_expiry
  check_contents-key c = ground arith

  two_parts :
      (p s key : String)
      → (check_parts formats now (p ∷ s ∷ []) key false).valid ≡ true
      → (formats.check_signature key s p ≡ genuine)
        × (check_parts formats now (p ∷ s ∷ []) key false
            ≡ check_contents formats now (formats.loads p) false)
  unfolding check_parts after_signature
  two_parts p s key h = ground arith

  -- What the status of an accepted text carries.
  pub record IsAccepted (parts : List String) (key : String) (status : LicenseStatus) : Type 0 where
    pub payload : Payload
    pub carried : status.payload ≡ some payload
    pub not_development : status.development_key ≡ false
    pub is_genuine : IsGenuine formats now parts key payload

  check_parts-IsAccepted :
      (parts : List String) (key : String)
      → (check_parts formats now parts key false).valid ≡ true
      → IsAccepted parts key (check_parts formats now parts key false)
  check_parts-IsAccepted [] key h = absurd (unfold check_parts in cc h)
  check_parts-IsAccepted (p ∷ []) key h = absurd (unfold check_parts in cc h)
  check_parts-IsAccepted (p ∷ s ∷ []) key h =
      let (signed, e) = two_parts p s key h in
      let (payload, carried, checked) =
        check_contents-valid (formats.loads p) false
          (ap (λ (x : LicenseStatus). x.valid) (sym e) ∙ h) in
      record {
        payload = payload;
        carried = ap (λ (x : LicenseStatus). x.payload) e ∙ carried;
        not_development =
            ap (λ (x : LicenseStatus). x.development_key) e ∙ check_contents-key (formats.loads p);
        is_genuine = record {
          payload_b64 = p;
          signature_b64 = s;
          sections = refl;
          signed = signed;
          contents = checked.contents;
          product = checked.product;
          format = checked.format;
          in_time = check_expiry-InTime payload.expires_at payload false checked.in_time;
        };
      }
  check_parts-IsAccepted (p ∷ s ∷ t ∷ r) key h = absurd (unfold check_parts in cc h)

  verify-check_parts :
      (text : String)
      → (verify formats now text).valid ≡ true
      → verify formats now text
        ≡ check_parts formats now (formats.split_dots (formats.strip text)) production_key false
  unfolding verify
  verify-check_parts text h = ground arith

  -- A text is accepted as a licence only if it consists of two sections, of which the second is a
  -- signature of the first under the production key, the first is an object for this product in
  -- format 1 whose expiry, if it names one, has not passed; the status carries that object, and
  -- does not say that the development key was used.
  pub verify-IsAccepted :
      (text : String)
      → (verify formats now text).valid ≡ true
      → IsAccepted
          (formats.split_dots (formats.strip text))
          production_key
          (verify formats now text)
  verify-IsAccepted text h =
      let e = verify-check_parts text h in
      subst (IsAccepted (formats.split_dots (formats.strip text)) production_key) (sym e) (
        check_parts-IsAccepted (formats.split_dots (formats.strip text)) production_key
          (ap (λ (x : LicenseStatus). x.valid) (sym e) ∙ h))

module _ (formats : Formats) (now later : ℕ) (text : String) (le : now ≤ later) where
  -- A licence that is accepted at some time was accepted at every earlier time.
  pub verify_mono :
      (verify formats later text).valid ≡ true → (verify formats now text).valid ≡ true
  unfolding verify check_parts after_signature check_contents check_expiry judge_expiry
  verify_mono h = ground arith

  pub verify-expired_mono :
      (verify formats now text).reason ≡ some expired
      → ((verify formats later text).reason ≡ some expired)
        × ((verify formats later text).valid ≡ false)
  unfolding verify check_parts after_signature check_contents check_expiry judge_expiry
  verify-expired_mono h = ground arith

-- Only an expired licence is refused with its contents at hand: a refused status carries a
-- payload exactly when the reason is the expiry, so it carries one although it is not valid.
pub verify-refused_payload :
    (formats : Formats) (now : ℕ) (text : String)
    → (verify formats now text).valid ≡ false
    → ((verify formats now text).reason ≡ some expired)
      ↔ (is_some (verify formats now text).payload ≡ true)
unfolding verify check_parts after_signature check_contents check_expiry judge_expiry
verify-refused_payload formats now text h = (λ r. ground arith, λ r. ground arith)
