-- ===== src/Server/Verifying.antt =====
-- POST /oap/receipt-verify on the receipts of `persistReceipt` (reference/server/server.js).
use oap_spec.Prelude.{String, Bool, true, Option, some, ◌≡◌, ◌≢◌, refl, arith, eq_iff}
use oap_spec.Json.{Fields, obj, end, canonicalize, without}
use oap_spec.Server.{Host, Draw}
use oap_spec.Server.Receipts.{Report, core_fields, make_receipt, first_value, receipt_verify}

module _ {N : Type 0} (host : Host N) (draw : Draw) (report : Report N) (previous : String) where
  -- The value that `signEd25519` gives for a receipt.
  abbrev pub value_of : String
  value_of =
      host.sign (canonicalize host.stringify (obj (core_fields host draw report previous end)))

  -- What `persistReceipt` makes is `core` with a list of signatures, and where `crypto.verify` accepts
  -- what the server signed, and the signature is not empty, the endpoint finds that receipt valid,
  -- whatever was drawn and reported.
  pub receipt_verify-make_receipt :
      (check : String → String → Option Bool)
      → ((text : String) → check text (host.sign text) ≡ some true)
      → value_of ≢ ""
      → (fs : Fields N) × ((make_receipt host draw report previous).body ≡ obj fs)
        × (receipt_verify host check fs ≡ true)
  unfolding receipt_verify first_value without core_fields make_receipt
  receipt_verify-make_receipt check accepts ne = (
    _,
    refl,
    ground (
      arith,
      accepts (canonicalize host.stringify (obj (core_fields host draw report previous end))),
      eq_iff value_of "",
    ),
  )
