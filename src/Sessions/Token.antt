-- ===== src/Sessions/Token.antt =====
-- The refresh token and the tenant context that it carries (src/auth/refresh-token.service.ts). The
-- encoding of the payload (JSON, then base64url) and the random part are Node's.
use content_intelligence_bac.Base.{
  ℕ, ◌≡◌, refl, Bool, true, false, not, ◌&&◌, ◌||◌, Option, none, some, List, [], ◌∷◌, String, ◌==◌,
  if◌then◌else◌, holds,
}
use Prim.Native.Char.{Char, code}
use Prim.Native.String
use text.Mathlib.Text.{◌==◌ as str_eq}
use text.Mathlib.TextLemmas.{nil-append, cons-append}

pub data SessionContext : Type 0 where
  tenant : (active_organization_id membership_id : String) → SessionContext
  platform_only : SessionContext

-- The parsed payload: a field is null where it is missing or not of the type that the code tests.
pub record Payload : Type 0 where
  pub v : Option ℕ
  pub platform_only : Bool
  pub active_organization_id : Option String
  pub membership_id : Option String

abbrev pub NoDot : String → Type 0
NoDot String.[] = Unit
NoDot (String.◌∷◌ c s) = ((code c == b'.') ≡ false) × NoDot s

-- `JSON` and `Buffer`, from a payload to base64url and back.
pub record Codec : Type 0 where
  pub encode : Payload → String
  pub decode : String → Option Payload

-- What the code relies on of them for a payload: base64url has no dot, and decoding undoes encoding.
pub record IsFaithful (codec : Codec) (p : Payload) : Type 0 where
  pub undotted : NoDot (codec.encode p)
  pub restored : codec.decode (codec.encode p) ≡ some p

abbrev pub prepend : Char → List String → List String
prepend c [] = []
prepend c (p ∷ ps) = String.◌∷◌ c p ∷ ps

-- `split('.')`
unfoldable pub split_dot : String → List String
split_dot String.[] = "" ∷ []
split_dot (String.◌∷◌ c s) =
    let rest = split_dot s in if code c == b'.' then "" ∷ rest else prepend c rest

abbrev pub payload_of : SessionContext → Payload
payload_of platform_only = record {
  v = some 3;
  platform_only = true;
  active_organization_id = none;
  membership_id = none;
}
payload_of (tenant organization membership) = record {
  v = some 2;
  platform_only = false;
  active_organization_id = some organization;
  membership_id = some membership;
}

abbrev pub version_of : SessionContext → String
version_of platform_only = "rt3"
version_of (tenant organization membership) = "rt2"

-- A string that is there and not empty.
abbrev pub given : Option String → Bool
given none = false
given (some s) = not (str_eq s "")

-- A token's parts are found where they were joined.
split_dot-head :
    (p s : String) → NoDot p → split_dot (String.◌++◌ p (String.◌++◌ "." s)) ≡ p ∷ split_dot s
unfolding split_dot
split_dot-head String.[] s h = rw nil-append (rw cons-append (rw nil-append))
split_dot-head (String.◌∷◌ c p) s h =
    rw (cons-append c p (String.◌++◌ "." s)) (rw (h.0, split_dot-head p s h.1))

split_dot-single : (p : String) → NoDot p → split_dot p ≡ p ∷ []
unfolding split_dot
split_dot-single String.[] h = refl
split_dot-single (String.◌∷◌ c p) h = rw (h.0, split_dot-single p h.1)

module _ (codec : Codec) where
  open codec use {encode, decode}

  -- `${version}.${payload}.${random}`
  unfoldable pub generate_refresh_token : Option SessionContext → (random : String) → String
  generate_refresh_token none random = random
  generate_refresh_token (some context) random =
      String.◌++◌ (version_of context)
        (String.◌++◌ "." (String.◌++◌ (encode (payload_of context)) (String.◌++◌ "." random)))

  unfoldable pub context_of : Bool → Payload → Option SessionContext
  context_of is_rt3 p =
      if is_rt3 && holds (λ v. v == 3) p.v && p.platform_only
      then some platform_only
      else if holds (λ v. v == 2) p.v
      then elim p.active_organization_id [
        | none ↦ none
        | some organization ↦ elim p.membership_id [
          | none ↦ none
          | some membership ↦
              if not (str_eq organization "") && not (str_eq membership "")
              then some (tenant organization membership)
              else none
        ]
      ]
      else none

  unfoldable pub parse_parts : List String → Option SessionContext
  parse_parts (version ∷ payload ∷ random ∷ []) =
      if str_eq version "rt2" || str_eq version "rt3"
      then elim (decode payload) [ none ↦ none | some p ↦ context_of (str_eq version "rt3") p ]
      else none
  parse_parts _ = none

  unfoldable pub parse_tenant_context : String → Option SessionContext
  parse_tenant_context token = parse_parts (split_dot token)

  -- The identifiers of a tenant context are not empty.
  abbrev pub IsNamed : SessionContext → Type 0
  IsNamed platform_only = Unit
  IsNamed (tenant organization membership) =
      (str_eq organization "" ≡ false) × (str_eq membership "" ≡ false)

  version-NoDot : (context : SessionContext) → NoDot (version_of context)
  version-NoDot platform_only = (refl, (refl, (refl, tt)))
  version-NoDot (tenant organization membership) = (refl, (refl, (refl, tt)))

  generated_parts :
      (context : SessionContext) (random : String)
      → NoDot random
      → IsFaithful codec (payload_of context)
      → split_dot (generate_refresh_token (some context) random)
        ≡ version_of context ∷ encode (payload_of context) ∷ random ∷ []
  unfolding generate_refresh_token
  generated_parts context random h f = rw (
    split_dot-head (version_of context) _ (version-NoDot context),
    split_dot-head (encode (payload_of context)) random f.undotted,
    split_dot-single random h,
  )

  parse_generated :
      (context : SessionContext) (random : String)
      → IsNamed context
      → IsFaithful codec (payload_of context)
      → parse_parts (version_of context ∷ encode (payload_of context) ∷ random ∷ []) ≡ some context
  unfolding parse_parts context_of
  parse_generated platform_only random k f = rw f.restored
  parse_generated (tenant organization membership) random k f = rw (f.restored, k.0, k.1)

  -- With a random part that has no dot, and an encoding that is faithful to the payload, a context whose
  -- identifiers are not empty is read back from the token that carries it.
  pub parse_tenant_context-generate :
      (context : SessionContext) (random : String)
      → NoDot random
      → IsNamed context
      → IsFaithful codec (payload_of context)
      → parse_tenant_context (generate_refresh_token (some context) random) ≡ some context
  unfolding parse_tenant_context
  parse_tenant_context-generate context random h k f =
      rw (generated_parts context random h f) (parse_generated context random k f)

  -- A token with no context, a random part alone, carries none.
  pub parse_tenant_context-plain :
      (random : String)
      → NoDot random
      → parse_tenant_context (generate_refresh_token none random) ≡ none
  unfolding parse_tenant_context generate_refresh_token parse_parts
  parse_tenant_context-plain random h = rw (split_dot-single random h)
