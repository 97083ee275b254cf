-- ===== src/Tests/ReceiptChainRuns.antt =====
-- The theorem on the receipt chain tool, for two receipts.
use oap_spec.Prelude.{ℕ, pos, none, some, List, [], ◌∷◌, ◌≡◌, ◌↔◌, ◌=s=◌, if◌then◌else◌, All}
use oap_spec.Json.{str, obj, end, field}
use oap_spec.ReceiptChain.{Entry, Host, verify_chain}
use oap_spec.ReceiptChain.Continuity.{LinkedFrom, DatedFrom, IsVerified, verify_chain_iff}

abbrev toy : Host ℕ
toy = record {
  stringify = λ v. "text";
  sha256_hex = λ s. "hash";
  date = λ s. if s =s= "noon" then some (pos 12) else none;
  check = some (λ text value. some (value =s= "seal"));
}

abbrev receipts : List (Entry ℕ)
receipts =
    record {
      json = obj (field "n" (str "1") end);
      prev_receipt_hash = none;
      issued_at = "noon";
      signature = some "seal";
    }
    ∷ record {
      json = obj (field "n" (str "2") end);
      prev_receipt_hash = some "hash";
      issued_at = "noon";
      signature = none;
    }
    ∷ []

verify_chain_iff_example :
    verify_chain toy receipts ≡ []
    ↔ LinkedFrom toy none receipts × DatedFrom toy (pos 0) receipts × All (IsVerified toy) receipts
verify_chain_iff_example = verify_chain_iff toy receipts
