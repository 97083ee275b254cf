-- ===== src/Tests/SdkRuns.antt =====
-- The theorems on the SDK: a server with one action over `MemoryStore`, two calls whose parts
-- alternate, and three counted calls, the last after its bucket has expired.
use oap_spec.Prelude.{ℕ, store, true, false, none, some, List, [], ◌∷◌, ◌≡◌, refl, arith}
use oap_spec.Json.{str}
use oap_spec.Sdk.{IsStore}
use oap_spec.Sdk.Memory.{Memory, empty, memory_store, increment, unexpired, remove_expired}
use oap_spec.Sdk.Service.{
  Actions, Pending, allows, denies, returns, begin_invoke, after_policy, after_handler,
  handle_invoke,
}
use oap_spec.Sdk.Stored.{memory-IsStore}
use oap_spec.Sdk.Ledger.{IsChain, start, began, decided, handled, Reach-IsChain}
use oap_spec.Sdk.Handling.{Leaves, handle_invoke-Leaves}
use oap_spec.Sdk.Counting.{Event, answers, counts, answers-eq-counts}
use oap_spec.Tests.ServerRuns.{toy, draw, call, note_call}

abbrev counted : List Event
counted =
    record { key = "k"; ttl_ms = 60; tick = record { now = 1; cleans = true } }
    ∷ record { key = "k"; ttl_ms = 60; tick = record { now = 60; cleans = false } }
    ∷ record { key = "k"; ttl_ms = 60; tick = record { now = 61; cleans = true } }
    ∷ []

answers-eq-counts_example : answers [] counted ≡ counts (λ k. none) counted
answers-eq-counts_example = answers-eq-counts counted (omega arith)

-- The third call is the first of a new bucket.
three_counts : answers [] counted ≡ 1 ∷ 2 ∷ 1 ∷ []
unfolding increment unexpired remove_expired store
three_counts = refl

abbrev actions : Actions
actions =
    (
      "store_note",
      record { id = "store_note"; requires_auth = some false; side_effects = "write"; rpm = 2 },
    )
    ∷ []

abbrev pending : Pending ℕ
pending = record {
  action_id = "store_note";
  principal = "did:web:me";
  agent = "did:web:agent";
  input = str "{}";
}

abbrev first_begun : Memory ℕ
first_begun = (begin_invoke toy memory_store actions (call 60000) "" note_call (str "{}") empty).1

abbrev both_begun : Memory ℕ
both_begun =
    (begin_invoke toy memory_store actions (call 60500) "" note_call (str "{}") first_begun).1

abbrev one_denied : Memory ℕ
one_denied = (after_policy toy memory_store draw pending (denies [] none) both_begun).1

abbrev one_done : Memory ℕ
one_done = (after_handler toy memory_store draw pending (returns (str "note")) one_denied).1

abbrev store_law : IsStore (memory_store {N = ℕ})
store_law = memory-IsStore

Reach-IsChain_example : IsChain toy one_done.chain_tip one_done.receipts
unfolding memory_store memory-IsStore
Reach-IsChain_example = Reach-IsChain toy memory_store store_law one_done (
    handled one_denied
      (decided both_begun
        (began first_begun
          (began empty (start empty refl refl) actions (call 60000) "" note_call (str "{}")) actions
          (call 60500) "" note_call (str "{}"))
        draw pending (denies [] none))
      draw pending (returns (str "note")))

handle_invoke-Leaves_example : Leaves toy memory_store store_law empty (
    handle_invoke toy memory_store actions
      (λ p. allows)
      (λ p. returns (str "note"))
      draw
      (call 60000)
      ""
      note_call
      (str "{}")
      empty)
handle_invoke-Leaves_example =
    handle_invoke-Leaves toy memory_store store_law actions (λ p. allows)
      (λ p. returns (str "note")) draw (call 60000) "" note_call (str "{}") empty
