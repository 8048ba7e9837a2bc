-- ===== src/Signaling/Http/Admin.antt =====
-- What the enrolment route does to the registry of devices.
use Prim.Native.String
use remotetab.Json.{Json}
use remotetab.Prelude.{
  ◌≡◌, refl, ap, ◌⊎◌, inl, inr, ◌≢◌, ℕ, String, true, ◌&&◌, Option, none, some, List, str_eq,
  eq_iff, arith, Bool-cases, Option-cases,
}
use remotetab.Store.{Store, lookup, insert}
use remotetab.Crypto.Random.{timing_safe_equal_iff}
use remotetab.Signaling.Devices.{Device, enrolled, enroll, compare_enroll}
use remotetab.Signaling.Http.{
  HttpEnv, HttpState, Response, enrolment, DeviceBody, enrolled_as, body_of, admin_authorized,
  device_body, enroll_body, is_null, post_admin_devices,
}

-- The record of a device that was not known.
abbrev pub new_device : DeviceBody → Device
new_device b = record {
  public_key_spki = b.public_key_spki;
  fingerprint = b.public_key_fingerprint;
  display_name = b.display_name;
  revoked_at_ms = none;
}

-- One new device, asked for by whoever has the token.
pub record IsEnrolment (utf8 : String → List ℕ) (env : HttpEnv) (header : String)
    (body : Option Json) (st : HttpState) (r : HttpState × Response) : Type 0 where
  pub token : env.admin_token ≢ ""
  pub bearer : utf8 header ≡ utf8 (String.◌++◌ "Bearer " env.admin_token)
  pub asked : DeviceBody
  pub read : device_body (body_of body) ≡ some asked
  pub unknown : lookup asked.device_id st.devices ≡ none
  pub result : r ≡ (
    record st { devices = insert asked.device_id (new_device asked) st.devices },
    enrolment enrolled 201,
  )

authorized :
    (utf8 : String → List ℕ) (env : HttpEnv) (header : String)
    → admin_authorized utf8 env header ≡ true
    → (env.admin_token ≢ "") × (utf8 header ≡ utf8 (String.◌++◌ "Bearer " env.admin_token))
unfolding admin_authorized
authorized utf8 env header e = elim (Bool-cases (str_eq env.admin_token "")) [
  | inl off ↦ absurd (ground arith)
  | inr on ↦ (
    λ k. cc (on, (eq_iff env.admin_token "").1 k),
    (timing_safe_equal_iff (utf8 header) (utf8 (String.◌++◌ "Bearer " env.admin_token))).0
        (rw (admin_authorized, on) at e),
  )
]

enroll_new :
    (b : DeviceBody) (m : Store Device)
    → lookup b.device_id m ≡ none
    → enroll b.device_id b.public_key_spki b.public_key_fingerprint b.display_name m
      ≡ (insert b.device_id (new_device b) m, enrolled)
unfolding enroll compare_enroll
enroll_new b m e = rw (enroll, e) refl

enroll_known :
    (b : DeviceBody) (d : Device) (m : Store Device)
    → lookup b.device_id m ≡ some d
    → (enroll b.device_id b.public_key_spki b.public_key_fingerprint b.display_name m).0 ≡ m
unfolding enroll compare_enroll
enroll_known b d m e =
    rw (enroll, e)
      (elim (Bool-cases (
        str_eq d.public_key_spki b.public_key_spki
        && str_eq d.fingerprint b.public_key_fingerprint)) [
          | inl same ↦ rw same refl
          | inr other ↦ rw other refl
        ])

enroll_body-moves :
    (utf8 : String → List ℕ) (env : HttpEnv) (header : String) (body : Option Json) (st : HttpState)
    (o : Option DeviceBody)
    → admin_authorized utf8 env header ≡ true
    → device_body (body_of body) ≡ o
    → ((enroll_body o st).0 ≡ st) ⊎ IsEnrolment utf8 env header body st (enroll_body o st)
unfolding enroll_body
enroll_body-moves utf8 env header body st none a e = inl refl
enroll_body-moves utf8 env header body st (some b) a e =
    elim (Option-cases (lookup b.device_id st.devices)) [
      | inr (d, found) ↦
          inl (
            ap (λ (m : Store Device). record st { devices = m })
              (enroll_known b d st.devices found))
      | inl unknown ↦ inr (record {
        token = (authorized utf8 env header a).0;
        bearer = (authorized utf8 env header a).1;
        asked = b;
        read = e;
        unknown = unknown;
        result = ap (enrolled_as st) (enroll_new b st.devices unknown);
      })
    ]

-- Whatever is posted: the state stays as it is, or one device that was not known is added with the
-- identity that the body gives, and that only if an admin token is set and the header has its bytes.
pub post_admin_devices-moves :
    (utf8 : String → List ℕ) (env : HttpEnv) (header : String) (body : Option Json) (st : HttpState)
    → let r = post_admin_devices utf8 env header body st in
      (r.0 ≡ st) ⊎ IsEnrolment utf8 env header body st r
unfolding post_admin_devices
post_admin_devices-moves utf8 env header body st =
    elim (Bool-cases (admin_authorized utf8 env header)) [
      | inl a ↦ elim (Bool-cases (is_null (body_of body))) [
        | inl n ↦ rw (a, n) (inl refl)
        | inr n ↦
            rw (a, n)
              (enroll_body-moves utf8 env header body st (device_body (body_of body)) a refl)
      ]
      | inr denied ↦ rw denied (inl refl)
    ]
