-- ===== src/Tests/ServerRuns.antt =====
-- The theorems on the tool server: three calls of a minute with a limit of two, a call that stores a
-- note, and two spaces of conventions.
use oap_spec.Prelude.{
  ℕ, String, true, false, none, some, List, [], ◌∷◌, ◌≡◌, refl, length, if◌then◌else◌, ltb, ◌=s=◌,
  arith,
}
use oap_spec.Json.{Fields, Json, str, obj}
use oap_spec.Server.{Tables, Host, Draw}
use oap_spec.Server.Receipts.{Report, make_receipt, receipt_verify}
use oap_spec.Server.Verifying.{receipt_verify-make_receipt}
use oap_spec.Server.Invoke.{Envelope, Input, texts, invoke}
use oap_spec.Server.Ledger.{IsLedger, start, invoked, Reach-IsLedger}
use oap_spec.Server.RateLimit.{Call}
use oap_spec.Server.Limits.{admitted_calls, admitted_calls-eq}

abbrev pub show : ℕ → String
show n = "minute"

abbrev pub call : ℕ → Call
call at = record { bucket_at = at; now = at; answered_at = at; collects = true }

abbrev calls : List Call
calls = call 60000 ∷ call 60500 ∷ call 61000 ∷ []

admitted_calls-eq_example :
    admitted_calls show 2 1 "did:web:me" "echo" calls []
    ≡ (if ltb 2 (length calls) then 2 else length calls)
admitted_calls-eq_example =
    admitted_calls-eq show 2 1 "did:web:me" "echo" calls [] (omega arith)
      ((refl, refl), ((refl, refl), ((refl, refl), tt))) refl

abbrev pub shown : Json ℕ → String
shown (str s) = s
shown _ = "0"

abbrev pub toy : Host ℕ
toy = record {
  tool_did = "did:web:tool";
  stringify = shown;
  sha256_hex = λ s. s;
  sign = λ s. "signed";
  of_nat = λ n. n;
  is_falsy = λ v. false;
  to_text = shown;
  show = show;
}

abbrev pub draw : Draw
draw = record { ulid = "01"; policy_ulid = "02"; now = "noon"; first_ms = 1; second_ms = 2 }

abbrev pub empty : Tables ℕ
empty = record {
  receipts = [];
  chain_tip = "genesis";
  subscriptions = [];
  incidents = [];
  rate_buckets = [];
  notes = [];
  admissions = 0;
}

abbrev pub note_call : Envelope ℕ
note_call = record {
  oap_version = some "1.0";
  request_id = some (str "r1");
  principal_did = some "did:web:me";
  agent_did = some "did:web:agent";
  action = some "store_note";
  input = some (str "{}");
}

abbrev note_input : Input ℕ
note_input = record { json = str "{}"; value = some ""; content = some "hello"; dids = texts }

abbrev invoked_once : Tables ℕ
invoked_once = (invoke toy draw (call 60000) "Bearer t" note_call note_input empty).1

Reach-IsLedger_example : IsLedger toy invoked_once
Reach-IsLedger_example =
    Reach-IsLedger toy invoked_once
      (invoked empty (start empty refl refl) draw (call 60000) "Bearer t" note_call note_input)

abbrev report : Report ℕ
report = record {
  type' = "invocation";
  principal_did = "did:web:me";
  agent_did = none;
  action_id = none;
  input = str "in";
  output = str "out";
  decision = none;
}

receipt_verify-make_receipt_example :
    (fs : Fields ℕ) × ((make_receipt toy draw report "genesis").body ≡ obj fs)
    × (receipt_verify toy (λ text value. some (value =s= "signed")) fs ≡ true)
receipt_verify-make_receipt_example =
    receipt_verify-make_receipt toy draw report "genesis" (λ text value. some (value =s= "signed"))
      (λ text. refl) (λ e. cc e)

abbrev spaces : List (List String)
spaces = ("b" ∷ "a" ∷ []) ∷ ("c" ∷ "a" ∷ "b" ∷ []) ∷ []
