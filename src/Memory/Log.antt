-- ===== src/Memory/Log.antt =====
-- src/memory-store.mjs: the log of events and the checkpoint. A file is what its lines parse to (`none`
-- for a line that is not JSON), and a value is read back as it was written. An error without a code has
-- the code UNEXPECTED_ERROR.
pub mod Chain
pub mod Laws
use bounded_agent_harness.Prelude.{
  ℕ, suc, String, Bool, true, false, not, ◌&&◌, Option, none, some, List, [], ◌∷◌, ◌++◌, map,
  if◌then◌else◌, length, last, Result, ok, err, assert, ◌>>=◌, ◌>>◌, map_each,
}
use bounded_agent_harness.Json.{
  Value, undefined, null, num, nat, str, get, is_number, is_text, is_truthy, is_object, is_null,
  is_undefined, object_of,
}
use bounded_agent_harness.Json.Canonical.{Host, digest_of}
use bounded_agent_harness.Queue.Validate.{strict_equal}

-- `events.jsonl` and `checkpoint.json`; a file that does not exist is `none`.
pub record MemoryStore : Type 0 where
  pub events_file : Option (List (Option Value))
  pub checkpoint_file : Option Value

-- `JSON.parse(line)`.
unfoldable pub parse_line : Option Value → Result Value
parse_line none = err "UNEXPECTED_ERROR"
parse_line (some v) = ok v

-- `{ sequence, previousHash, payload }`.
unfoldable pub unsigned : Value → Value → Value → Value
unsigned sequence previous payload =
    object_of (("sequence", sequence) ∷ ("previousHash", previous) ∷ ("payload", payload) ∷ [])

unfoldable pub expected_hash : Host → Value → String
unfolding unsigned get digest_of
expected_hash host e =
    digest_of host (unsigned (get e "sequence") (get e "previousHash") (get e "payload"))

-- One round of the loop of `envelopes`.
unfoldable pub check_link : Host → ℕ → Value → Value → Result (Unit {0})
check_link host sequence previous e = do
  assert (not (is_null e)) "UNEXPECTED_ERROR"
  assert (is_number (get e "sequence") sequence) "EVENT_LOG_CORRUPT"
  assert (strict_equal (get e "previousHash") previous) "EVENT_LOG_CORRUPT"
  assert (is_text (get e "hash") (expected_hash host e)) "EVENT_LOG_CORRUPT"

unfoldable pub check_chain : Host → ℕ → Value → List Value → Result (Unit {0})
check_chain host sequence previous [] = ok tt
check_chain host sequence previous (e ∷ es) =
    check_link host sequence previous e >> check_chain host (suc sequence) (get e "hash") es

-- `envelopes()`.
unfoldable pub read_envelopes : Host → Option (List (Option Value)) → Result (List Value)
read_envelopes host none = ok []
read_envelopes host (some lines) = do
  es ← map_each parse_line lines
  check_chain host 0 null es
  ok es

abbrev pub payload_of : Value → Value
payload_of e = get e "payload"

-- `events()`.
unfoldable pub read_events : Host → MemoryStore → Result (List Value)
read_events host s = read_envelopes host s.events_file >>= λ es. ok (map payload_of es)

-- `previous?.hash || null`.
unfoldable pub previous_hash : Option Value → Value
previous_hash none = null
previous_hash (some e) = if is_truthy (get e "hash") then get e "hash" else null

-- `{ ...unsigned, hash }`.
unfoldable pub next_envelope : Host → List Value → Value → Value
unfolding unsigned digest_of
next_envelope host es event = object_of (
    ("sequence", num (nat (length es)))
    ∷ ("previousHash", previous_hash (last es))
    ∷ ("payload", event)
    ∷ (
      "hash",
      str (digest_of host (unsigned (num (nat (length es))) (previous_hash (last es)) event)),
    )
    ∷ [])

abbrev pub lines_of : Option (List (Option Value)) → List (Option Value)
lines_of none = []
lines_of (some lines) = lines

-- `appendFile`, which creates the file.
unfoldable pub append_line : Value → MemoryStore → MemoryStore
append_line v s = record s { events_file = some (lines_of s.events_file ++ some v ∷ []) }

-- What `append` does between taking the lock and releasing it.
unfoldable pub append_locked : Host → Value → MemoryStore → MemoryStore × Result (Unit {0})
append_locked host event s = elim (read_envelopes host s.events_file) [
  | err code ↦ (s, err code)
  | ok es ↦ (append_line (next_envelope host es event) s, ok tt)
]

-- `checkpoint(value)` and `readCheckpoint()`; the new file takes the place of the old one at once.
unfoldable pub checkpoint : Value → MemoryStore → MemoryStore × Value
checkpoint v s = (record s { checkpoint_file = some v }, v)

unfoldable pub read_checkpoint : MemoryStore → Value
read_checkpoint s = elim s.checkpoint_file [ none ↦ null | some v ↦ v ]
