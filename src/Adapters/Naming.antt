-- ===== src/Adapters/Naming.antt =====
-- Which tools keep their names as actions, and the round trip of definitions (adapters/).
use Prim.Native.Char.{Char}
use text.Mathlib.TextLemmas
use oap_spec.Prelude.{
  ℕ, zero, suc, ◌≤◌, String, Bool, true, false, ◌≡◌, ◌↔◌, refl, ap, sym, ◌∙◌, arith, ◌=s=◌,
  if◌then◌else◌, ◌+s◌, Bool-cases, inl, inr, eq_iff,
}
use oap_spec.Json.{Json}
use oap_spec.Adapters.{
  Tool, is_id_char, sanitize, take_chars, oap_action_to_mcp_tool, mcp_tool_to_oap_action, or_text,
  object_schema,
}

abbrev pub size : String → ℕ
size String.[] = 0
size (String.◌∷◌ c s) = suc (size s)

-- The text is of letters that an id may have.
abbrev pub IsWord : String → Type 0
IsWord String.[] = Unit
IsWord (String.◌∷◌ c s) = (is_id_char c ≡ true) × IsWord s

-- The text is an id as action schemas have them, but for the first letter.
abbrev pub IsName : ℕ → String → Type 0
IsName n s = IsWord s × (size s ≤ n)

is_id_char-underscore : is_id_char "_" ≡ true
unfolding is_id_char
is_id_char-underscore = refl

kept_char : (c : Char) → (if is_id_char c then c else "_") ≡ c ↔ is_id_char c ≡ true
kept_char c = elim (Bool-cases (is_id_char c)) [
  | inl e ↦ (λ h. e, λ h. rw e refl)
  | inr e ↦ (λ h. cc (rw e at h, is_id_char-underscore), λ h. cc (e, h))
]

take_chars-sanitize_iff : (n : ℕ) (s : String) → take_chars n (sanitize s) ≡ s ↔ IsName n s
unfolding take_chars sanitize
take_chars-sanitize_iff zero String.[] = (λ h. (tt, omega arith), λ h. refl)
take_chars-sanitize_iff zero (String.◌∷◌ c s) = (λ h. cc h, λ h. absurd (omega (arith, h.1)))
take_chars-sanitize_iff (suc n) String.[] = (λ h. (tt, omega arith), λ h. refl)
take_chars-sanitize_iff (suc n) (String.◌∷◌ c s) =
    let ih = take_chars-sanitize_iff n s in
    (
      λ h. (((kept_char c).0 (cc h), (ih.0 (cc h)).0), omega (arith, (ih.0 (cc h)).1)),
      λ h. cc ((kept_char c).1 h.0.0, ih.1 (h.0.1, omega (arith, h.1))),
    )

-- Every text becomes one of at most `n` letters that an id may have.
take_chars-sanitize-IsName : (n : ℕ) (s : String) → IsName n (take_chars n (sanitize s))
unfolding take_chars sanitize
take_chars-sanitize-IsName zero s = (tt, omega arith)
take_chars-sanitize-IsName (suc n) String.[] = (tt, omega arith)
take_chars-sanitize-IsName (suc n) (String.◌∷◌ c s) =
    let ih = take_chars-sanitize-IsName n s in
    ((ground (arith, is_id_char-underscore), ih.0), omega (arith, ih.1))

filled-append : (c : Char) (s t : String) → ((String.◌∷◌ c s +s t) =s= "") ≡ false
filled-append c s t = elim (Bool-cases ((String.◌∷◌ c s +s t) =s= "")) [
  | inl e ↦ absurd (
      TextLemmas.cons-ne-nil c (s +s t)
        (sym (TextLemmas.cons-append c s t) ∙ (eq_iff (String.◌∷◌ c s +s t) "").0 e))
  | inr e ↦ e
]

-- A description is kept exactly if it is given.
or_text-filled_iff :
    (s filler other : String)
    → (filler =s= "") ≡ false
    → or_text (or_text s filler) other ≡ s ↔ (s =s= "") ≡ false
or_text-filled_iff s filler other f = elim (Bool-cases (s =s= "")) [
  | inl e ↦ (
    λ h.
        let none_given : s ≡ "" = (eq_iff s "").0 e in
        let filler_kept : filler ≡ s = rw (e, or_text, f) at h in
        cc (ap (λ u. u =s= "") filler_kept, f),
    λ h. cc (e, h),
  )
  | inr e ↦ (λ h. e, λ h. ground (arith, e))
]

module _ {N : Type 0} (is_falsy : Json N → Bool) (t : Tool N) where
  -- A tool of MCP that becomes an action and a tool again is as it was exactly if its name has at most
  -- 63 characters of a to z, 0 to 9 and _, and it has a description and a schema, where the schema
  -- that stands for a missing one counts as one.
  pub mcp_tool_to_oap_action-back_iff :
      is_falsy object_schema ≡ false
      → oap_action_to_mcp_tool (mcp_tool_to_oap_action is_falsy t) ≡ t
        ↔ IsName 63 t.name × ((t.description =s= "") ≡ false) × (is_falsy t.input_schema ≡ false)
  unfolding oap_action_to_mcp_tool mcp_tool_to_oap_action
  mcp_tool_to_oap_action-back_iff schema = (
    λ h. (
      (take_chars-sanitize_iff 63 t.name).0 (ap (λ u. u.name) h),
      (or_text-filled_iff t.description ("Invokes the " +s t.name +s " tool.") _
            (filled-append _ _ _)).0
          (ap (λ u. u.description) h),
      elim (Bool-cases (is_falsy t.input_schema)) [
        | inl e ↦
            let same : object_schema ≡ t.input_schema = rw e at (ap (λ u. u.input_schema) h) in
            cc (schema, same)
        | inr e ↦ e
      ],
    ),
    λ h.
        let name : take_chars 63 (sanitize t.name) ≡ t.name =
          (take_chars-sanitize_iff 63 t.name).1 h.0 in
        let kept =
          (or_text-filled_iff t.description ("Invokes the " +s t.name +s " tool.")
              (take_chars 240 (or_text t.description t.name)) (filled-append _ _ _)).1
            h.1 in
        rw (name, h.2, kept) refl,
  )
