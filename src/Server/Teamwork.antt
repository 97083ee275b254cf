-- ===== src/Server/Teamwork.antt =====
-- The endpoints under /oap/aht (reference/server/server.js): capability announcements, late joins and
-- conventions. A convention is known by its canonical text.
use oap_spec.Prelude.{
  ℕ, ◌+◌, String, Bool, true, false, not, ◌||◌, Option, none, some, List, [], ◌∷◌, ◌++◌, map, ◌+s◌,
  ◌=s=◌, any, all, if◌then◌else◌,
}
use oap_spec.Json.{Json, canonicalize, before}
use oap_spec.Server.{Tables, Host, Draw}

abbrev pub includes : List String → String → Bool
includes xs s = any (λ x. x =s= s) xs

abbrev pub is_nil {ℓ} : {A : Type ℓ} → List A → Bool
is_nil [] = true
is_nil (_ ∷ _) = false

-- AHT_REQUIRED_CAPS
abbrev pub required_caps : List String
required_caps = "fulfillment.ship.parcel" ∷ "collab.edit.document" ∷ []

pub record Announcement (N : Type 0) : Type 0 where
  pub schema : String
  pub agent_did : String  -- "" if it is missing
  pub capabilities : Option (List String)  -- the `action` of each; none if it is no array
  pub is_signed : Bool
  pub json : Json N

pub data Refusal : Type 0 where
  invalid_schema missing_required_fields unsigned capabilities_not_matched missing_convention_spaces
        convention_failed :
      Refusal

pub data Reply (A : Type 0) : Type 0 where
  ok : A → Reply A
  refused : ℕ → Refusal → Reply A

abbrev has_some : Option (List String) → Bool
has_some none = false
has_some (some xs) = not (is_nil xs)

-- The receipt of a late join, as far as the request and the state decide it.
pub record LateJoin : Type 0 where
  pub receipt_id : String
  pub admitted_agent_did : String
  pub capabilities_matched : List String
  pub capability_announcement_hash : String
  pub monotonic_admission_index : ℕ
  pub previous_receipt_hash : String

unfoldable pub matched_of : List String → List String
matched_of [] = []
matched_of (c ∷ cs) =
    let rest = matched_of cs in if includes required_caps c then c ∷ rest else rest

abbrev or_nil : Option (List String) → List String
or_nil none = []
or_nil (some xs) = xs

module _ {N : Type 0} (host : Host N) where
  -- `'sha256:' +` the digest of `JSON.stringify(v)`
  abbrev pub plain_hash : Json N → String
  plain_hash v = "sha256:" +s host.sha256_hex (host.stringify v)

  -- POST /oap/aht/capability-announcement
  unfoldable pub capability_announcement : Announcement N → Reply String
  capability_announcement a =
      if not (a.schema =s= "oap.capability.v1")
      then refused 400 invalid_schema
      else if (a.agent_did =s= "") || not (has_some a.capabilities)
      then refused 400 missing_required_fields
      else if not a.is_signed
      then refused 400 unsigned
      else ok (plain_hash a.json)

  -- POST /oap/aht/late-join
  unfoldable pub late_join :
      Draw → Option (Announcement N) → (has_context : Bool) → Tables N → Reply LateJoin × Tables N
  late_join draw none has_context t = (refused 400 missing_required_fields, t)
  late_join draw (some a) has_context t =
      if not has_context
      then (refused 400 missing_required_fields, t)
      else if is_nil (matched_of (or_nil a.capabilities))
      then (refused 403 capabilities_not_matched, t)
      else (
        ok (record {
          receipt_id = "urn:oap:receipt:lj-" +s draw.ulid;
          admitted_agent_did = a.agent_did;
          capabilities_matched = matched_of (or_nil a.capabilities);
          capability_announcement_hash = plain_hash a.json;
          monotonic_admission_index = t.admissions + 1;
          previous_receipt_hash = t.chain_tip;
        }),
        record t { admissions = t.admissions + 1 },
      )

-- A protocol follower's space of conventions.
pub record Space (N : Type 0) : Type 0 where
  pub did : String
  pub space : List (Json N)

pub data Tier : Type 0 where
  tier1 tier2_3 : Tier

-- `inter.sort()[0]`: the least text
unfoldable pub least_text : List String → Option String
least_text [] = none
least_text (s ∷ ss) = elim (least_text ss) [
  | none ↦ some s
  | some t ↦ some (if before s t then s else t)
]

-- The first set, as far as every set has its members.
unfoldable pub common_to : List (List String) → List String → List String
common_to sets [] = []
common_to sets (k ∷ ks) =
    let rest = common_to sets ks in if all (λ s. includes s k) sets then k ∷ rest else rest

unfoldable pub intersection : List (List String) → List String
intersection [] = []
intersection (s ∷ sets) = common_to (s ∷ sets) s

-- All members of all spaces.
unfoldable pub union : List (List String) → List String
union [] = []
union (s ∷ sets) = s ++ union sets

-- The choice of POST /oap/aht/convention/propose, on the canonical texts of the spaces.
unfoldable pub choose_convention : List (List String) → (has_peers : Bool) → Option (String × Tier)
choose_convention sets has_peers = elim (least_text (intersection sets)) [
  | some c ↦ some (c, tier1)
  | none ↦
      if has_peers
      then elim (least_text (union sets)) [ none ↦ none | some c ↦ some (c, tier2_3) ]
      else none
]

unfoldable pub propose :
    {N : Type 0} → Host N → List (Space N) → (has_peers : Bool) → Reply (String × Tier)
propose host spaces has_peers =
    if is_nil spaces
    then refused 400 missing_convention_spaces
    else elim (choose_convention (map (λ e. map (canonicalize host.stringify) e.space) spaces)
        has_peers) [
          | none ↦ refused 409 convention_failed
          -- A convention whose text is that of null is taken for none.
          | some c ↦ if c.0 =s= "null" then refused 409 convention_failed else ok c
        ]

pub data DriftDecision : Type 0 where
  re_infer : DriftDecision

-- `kl_divergence > 0.5 ? 're-infer' : 're-infer'`
unfoldable pub drift_decision : Bool → DriftDecision
drift_decision above = if above then re_infer else re_infer
