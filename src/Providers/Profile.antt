-- ===== src/Providers/Profile.antt =====
-- zero/providers/base.py: the profile of a provider, and the test that its reference to a secret is a name
-- and not the secret. Prices are left out; a timeout is in whole seconds.
use zero_agent.Base.{
  ℕ, ◌+◌, ◌<◌, ◌≡◌, ◌≢◌, ℤ, pos, negsuc, Bool, true, false, not, ◌&&◌, ◌||◌, List, [], ◌∷◌, ◌++◌,
  Option, none, some, String, ◌==◌, nat_eq, if◌then◌else◌, leb, length, codes, fold_codes,
  has_prefix, is_blank, All, arith, Result, ok, err, profile_invalid,
}

pub data Kind : Type 0 where
  openai_compatible gemini : Kind

pub record Profile : Type 0 where
  pub name : String
  pub kind : Kind
  pub model : String
  pub base_url : String
  pub secret_ref : Option String
  pub timeout_seconds : ℤ
  pub context_limit : ℤ
  pub max_retries : ℤ
  pub requests_per_minute : Option ℕ

abbrev pub is_digit : ℕ → Bool
is_digit c = leb 48 c && leb c 57

abbrev pub is_lower : ℕ → Bool
is_lower c = leb 97 c && leb c 122

abbrev pub is_upper : ℕ → Bool
is_upper c = leb 65 c && leb c 90

-- `[._-]`
abbrev pub is_separator : ℕ → Bool
is_separator c = c == 46 || c == 95 || c == 45

abbrev pub is_name_code : ℕ → Bool
is_name_code c = is_lower c || is_digit c || c == 95 || c == 45

abbrev pub is_ref_code : ℕ → Bool
is_ref_code c = is_lower c || is_upper c || is_digit c || is_separator c

unfoldable pub all_codes : (ℕ → Bool) → List ℕ → Bool
all_codes p [] = true
all_codes p (c ∷ cs) = p c && all_codes p cs

-- _NAME
unfoldable pub is_name : List ℕ → Bool
unfolding all_codes
is_name [] = false
is_name (c ∷ cs) = (is_lower c || is_digit c) && all_codes is_name_code cs && leb (length cs) 63

-- _REF
unfoldable pub is_ref : List ℕ → Bool
unfolding all_codes
is_ref [] = false
is_ref (c ∷ cs) =
    (is_lower c || is_upper c)
    && all_codes is_ref_code cs
    && leb 2 (length cs)
    && leb (length cs) 63

-- _CREDENTIAL_PREFIXES
unfoldable pub credential_prefixes : List String
credential_prefixes =
    "sk-" ∷ "sk_" ∷ "pk-" ∷ "ghp_" ∷ "gho_" ∷ "github_pat_" ∷ "aiza" ∷ "xoxb-" ∷ "xoxp-" ∷ "bearer"
    ∷ []

unfoldable pub has_some_prefix : List String → List ℕ → Bool
has_some_prefix [] s = false
has_some_prefix (p ∷ ps) s = has_prefix (codes p) s || has_some_prefix ps s

-- no segment is longer than `_MAX_REF_SEGMENT`; `run` is what was read of the current one
unfoldable pub segments_fit : ℕ → List ℕ → Bool
segments_fit run [] = leb run 24
segments_fit run (c ∷ cs) =
    let next = segments_fit 0 cs in
    let same = segments_fit (run + 1) cs in if is_separator c then leb run 24 && next else same

-- `_is_symbolic_ref`
unfoldable pub is_symbolic_ref : List ℕ → Bool
unfolding is_ref credential_prefixes has_some_prefix segments_fit
is_symbolic_ref s =
    is_ref s && not (has_some_prefix credential_prefixes (fold_codes s)) && segments_fit 0 s

abbrev pub is_positive : ℤ → Bool
is_positive (pos n) = leb 1 n
is_positive (negsuc n) = false

abbrev pub is_negative : ℤ → Bool
is_negative (pos n) = false
is_negative (negsuc n) = true

abbrev pub is_good_ref : Option String → Bool
is_good_ref none = true
is_good_ref (some r) = is_symbolic_ref (codes r)

-- `__post_init__`
unfoldable pub make_profile : Profile → Result Profile
unfolding is_name is_symbolic_ref
make_profile p =
    if not (is_name (codes p.name))
    then err profile_invalid
    else if is_blank (codes p.model)
    then err profile_invalid
    else if not (is_good_ref p.secret_ref)
    then err profile_invalid
    else if not (is_positive p.timeout_seconds)
    then err profile_invalid
    else if not (is_positive p.context_limit)
    then err profile_invalid
    else if is_negative p.max_retries
    then err profile_invalid
    else ok p

too_long : (run : ℕ) (cs : List ℕ) → 24 < run → segments_fit run cs ≡ false
unfolding segments_fit
too_long run [] h = ground (arith, h)
too_long run (c ∷ cs) h = ground (arith, h, too_long (run + 1) cs)

opaque_segment :
    (run : ℕ) (token rest : List ℕ)
    → All (λ c. is_separator c ≡ false) token
    → 24 < run + length token
    → segments_fit run (token ++ rest) ≡ false
unfolding segments_fit
opaque_segment run [] rest plain h = too_long run rest (omega (arith, h))
opaque_segment run (c ∷ cs) rest plain h =
    rw plain.0 (opaque_segment (run + 1) cs rest plain.1 (omega (arith, h)))

opaque_inside :
    (run : ℕ) (before token rest : List ℕ)
    → All (λ c. is_separator c ≡ false) token
    → 24 < length token
    → segments_fit run (before ++ token ++ rest) ≡ false
unfolding segments_fit
opaque_inside run [] token rest plain h = opaque_segment run token rest plain (omega (arith, h))
opaque_inside run (c ∷ cs) token rest plain h =
    ground
      (arith, opaque_inside 0 cs token rest plain h, opaque_inside (run + 1) cs token rest plain h)

-- A profile whose reference to a secret has, anywhere in it, more than 24 characters in a row without a
-- dot, an underscore or a dash, as a key has, is refused.
pub make_profile-opaque :
    (p q : Profile) (r : String) (before token rest : List ℕ)
    → p.secret_ref ≡ some r
    → codes r ≡ (before ++ token ++ rest)
    → All (λ c. is_separator c ≡ false) token
    → 24 < length token
    → make_profile p ≢ ok q
unfolding make_profile is_symbolic_ref
make_profile-opaque p q r before token rest named parts plain long h =
    let refused : segments_fit 0 (codes r) ≡ false =
      rw parts (opaque_inside 0 before token rest plain long) in
    ground (arith, named, refused, h)
