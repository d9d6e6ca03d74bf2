-- ===== src/Memory/Shared/Laws.antt =====
-- Records of src/shared-memory.mjs: what is put is read back, and a stale revision is refused.
use bounded_agent_harness.Prelude.{
  err≢ok, ℕ, ◌+◌, ◌≡◌, refl, ap, sym, String, true, false, Option, none, some, Result, ok, err,
  ◌>>=◌, ◌>>◌, >>-right, Result-cases, inl, inr, find_entry, find_entry-set_same, ok-injective,
  arith, eq_refl,
}
use bounded_agent_harness.Json.{
  Value, null, get, num, nat, str, nat_of, text_of, is_text, is_null, is_string, is_safe_natural,
  is_truthy, object_of,
}
use bounded_agent_harness.Json.Canonical.{Host, digest_of}
use bounded_agent_harness.Registry.{Registry, validate_contract}
use bounded_agent_harness.Queue.Validate.{strict_equal}
use bounded_agent_harness.Memory.Log.{append_locked, parse_line}
use bounded_agent_harness.Memory.Shared.{
  SharedStore, memory_path, unsigned_record, record_digest, check_record, get_record,
  actual_revision, check_put, new_record, memory_updated, write_record, put_record,
}

check_put-parts :
    (host : Host) (contracts : Registry) (key contract value expected : Value) (s : SharedStore)
    (path : String) (revision : ℕ)
    → check_put host contracts key contract value expected s ≡ ok (path, revision)
    → (memory_path key ≡ ok path)
      × (validate_contract contracts (text_of contract) value ≡ ok tt)
      × (is_safe_natural expected ≡ true)
      × (revision ≡ nat_of expected + 1)
unfolding check_put
check_put-parts host contracts key contract value expected s path revision h =
    (ground arith, ground arith, ground arith, ground arith)

check_record-new :
    (host : Host) (contracts : Registry) (key contract value : Value) (revision : ℕ)
    → validate_contract contracts (text_of contract) value ≡ ok tt
    → check_record host contracts (new_record host key contract value revision) ≡ ok tt
unfolding check_record new_record record_digest unsigned_record is_text is_null get object_of
check_record-new host contracts key contract value revision k =
    rw
      (
        eq_refl
            (digest_of host (object_of (unsigned_record key (num (nat revision)) contract value))),
        k,
      )
      refl

file_read : Host → Registry → Option (Option Value) → Result Value
file_read host contracts none = ok null
file_read host contracts (some file) = do r ← parse_line file; check_record host contracts r; ok r

get_record-read :
    (host : Host) (contracts : Registry) (key : Value) (s : SharedStore) (path : String)
    → memory_path key ≡ ok path
    → get_record host contracts key s ≡ file_read host contracts (find_entry path s.records)
unfolding get_record file_read
get_record-read host contracts key s path h =
    rw (h, get_record) (by_file (find_entry path s.records))
  where
    by_file :
        (file : Option (Option Value))
        → (elim file as (λ x. Result Value) [
          | none ↦ ok null
          | some f ↦ (do r ← parse_line f; check_record host contracts r; ok r)
        ])
          ≡ file_read host contracts file
    by_file none = refl
    by_file (some f) = refl

get_record-put :
    (host : Host) (contracts : Registry) (key contract value : Value) (s : SharedStore)
    (path : String) (revision : ℕ)
    → memory_path key ≡ ok path
    → validate_contract contracts (text_of contract) value ≡ ok tt
    → get_record host contracts key
        (write_record host path (new_record host key contract value revision) s).0
      ≡ ok (new_record host key contract value revision)
unfolding write_record parse_line file_read
get_record-put host contracts key contract value s path revision h k =
    let r = new_record host key contract value revision in
    let s' = (write_record host path (new_record host key contract value revision) s).0 in
    let stored : find_entry path s'.records ≡ some (some r) =
      find_entry-set_same path (some r) s.records in
    rw (get_record-read host contracts key s' path h, stored)
      (rw (check_record-new host contracts key contract value revision k) refl)

put_record-parts :
    (host : Host) (contracts : Registry) (key contract value : Value) (expected : ℕ)
    (s s' : SharedStore) (r : Value)
    → put_record host contracts key contract value (num (nat expected)) s ≡ (s', ok r)
    → (path : String) × (memory_path key ≡ ok path)
      × (validate_contract contracts (text_of contract) value ≡ ok tt)
      × (is_safe_natural (num (nat expected)) ≡ true)
      × (write_record host path (new_record host key contract value (expected + 1)) s ≡ (s', ok r))
unfolding put_record bounded_agent_harness.Queue.Validate.or_default nat_of
    bounded_agent_harness.Json.is_undefined
put_record-parts host contracts key contract value expected s s' r h =
    elim (Result-cases (check_put host contracts key contract value (num (nat expected)) s)) [
      | inr (code, c) ↦
          let never : (s, err code) ≡ (s', ok r) = rw (c, put_record) at h in
          absurd (err≢ok (ap (λ p. p.1) never))
      | inl ((path, revision), c) ↦
          let (found, valid, safe, next) =
            check_put-parts host contracts key contract value (num (nat expected)) s path revision
              c in
          (path, found, valid, safe, rw (sym next) (rw (c, put_record) at h))
    ]

write_record-ok :
    (host : Host) (path : String) (x : Value) (s s' : SharedStore) (r : Value)
    → write_record host path x s ≡ (s', ok r)
    → x ≡ r
unfolding write_record
write_record-ok host path x s s' r h =
    ok-injective
      (>>-right (append_locked host (memory_updated x) s.events).1 (ok x) (ap (λ p. p.1) h))

new_record-revision :
    (host : Host) (key contract value : Value) (n : ℕ)
    → get (new_record host key contract value n) "revision" ≡ num (nat n)
unfolding get new_record unsigned_record object_of
new_record-revision host key contract value n = refl

new_record-value :
    (host : Host) (key contract value : Value) (n : ℕ)
    → get (new_record host key contract value n) "value" ≡ value
unfolding get new_record unsigned_record object_of
new_record-value host key contract value n = refl

-- The record is stored as it was returned.
put_record-get :
    (host : Host) (contracts : Registry) (key contract value : Value) (expected : ℕ)
    (s s' : SharedStore) (r : Value)
    → put_record host contracts key contract value (num (nat expected)) s ≡ (s', ok r)
    → (get_record host contracts key s' ≡ ok r)
      × (get r "revision" ≡ num (nat (expected + 1)))
      × (get r "value" ≡ value)
put_record-get host contracts key contract value expected s s' r h =
    let (path, found, valid, safe, written) =
      put_record-parts host contracts key contract value expected s s' r h in
    let same =
      write_record-ok host path (new_record host key contract value (expected + 1)) s s' r
        written in
    let read = get_record-put host contracts key contract value s path (expected + 1) found valid in
    (
      rw (ap (λ p. p.0) written, same) at read,
      rw (sym same) (new_record-revision host key contract value (expected + 1)),
      rw (sym same) (new_record-value host key contract value (expected + 1)),
    )

actual_revision-above :
    (n : ℕ) (r : Value)
    → get r "revision" ≡ num (nat (n + 1))
    → strict_equal (actual_revision r) (num (nat n)) ≡ false
unfolding actual_revision strict_equal is_truthy
actual_revision-above n r h =
    let truthy : is_truthy (num (nat (n + 1))) ≡ true = ground arith in
    let apart : strict_equal (num (nat (n + 1))) (num (nat n)) ≡ false = ground arith in
    rw h (rw truthy apart)

-- A record that is put is read back as it was returned, with its value and the revision one above the
-- expected one; a second put under the key at the same expected revision, of a value that its contract
-- accepts, is refused and changes nothing.
pub put_record-once :
    (host : Host) (contracts : Registry) (key contract value contract' value' : Value)
    (expected : ℕ) (s s' : SharedStore) (r : Value)
    → put_record host contracts key contract value (num (nat expected)) s ≡ (s', ok r)
    → validate_contract contracts (text_of contract') value' ≡ ok tt
    → (get_record host contracts key s' ≡ ok r)
      × (get r "revision" ≡ num (nat (expected + 1)))
      × (get r "value" ≡ value)
      × (put_record host contracts key contract' value' (num (nat expected)) s'
          ≡ (s', err "REVISION_CONFLICT"))
unfolding put_record check_put bounded_agent_harness.Queue.Validate.or_default
    bounded_agent_harness.Json.is_undefined
put_record-once host contracts key contract value contract' value' expected s s' r h k =
    let (read, revision, kept) =
      put_record-get host contracts key contract value expected s s' r h in
    let (path, found, valid, safe, written) =
      put_record-parts host contracts key contract value expected s s' r h in
    let refused : check_put host contracts key contract' value' (num (nat expected)) s'
        ≡ err "REVISION_CONFLICT" =
      rw (safe, k, check_put) (rw read (rw (actual_revision-above expected r revision) refl)) in
    (read, revision, kept, rw (refused, put_record) refl)
