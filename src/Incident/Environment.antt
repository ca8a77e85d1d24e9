-- ===== src/Incident/Environment.antt =====
-- `normalizeEnvironmentalFact` of packages/contracts/src/incident-v1.js: the free text of an
-- environmental fact is mapped to an incident class by whole tokens.
use pixel_hq_oss.Common.{
  ℕ, ◌+◌, Bool, true, false, ◌&&◌, ◌||◌, Option, none, some, List, [], ◌∷◌, ◌++◌, Text, text,
  same_text, Value, str, any_of, leb, ◌==◌, if◌then◌else◌,
}
use pixel_hq_oss.Incident.Names.{IncidentClass, infrastructure, power, thermal}
use pixel_hq_oss.Incident.Contract.{is_bounded_text}

-- `toLowerCase`, as far as it yields `[a-z0-9]`: the two letters beyond ASCII that it maps to ASCII
-- letters are the Kelvin sign and the dotted capital I, which a combining dot follows.
abbrev pub lower_char : ℕ → List ℕ
lower_char c =
    if leb b'A' c && leb c b'Z'
    then (c + 32) ∷ []
    else if c == 0x212a
    then b'k' ∷ []
    else if c == 0x130
    then b'i' ∷ 0x307 ∷ []
    else c ∷ []

unfoldable pub lower : Text → Text
lower [] = []
lower (c ∷ cs) = lower_char c ++ lower cs

abbrev pub is_token_char : ℕ → Bool
is_token_char c = (leb b'a' c && leb c b'z') || (leb b'0' c && leb c b'9')

-- The tokens of the rest of a text, `token` being read.
unfoldable pub split_tokens : Text → Text → List Text
split_tokens [] [] = []
split_tokens (t ∷ ts) [] = (t ∷ ts) ∷ []
split_tokens [] (c ∷ cs) = elim (is_token_char c) [
  | true ↦ split_tokens (c ∷ []) cs
  | false ↦ split_tokens [] cs
]
split_tokens (t ∷ ts) (c ∷ cs) = elim (is_token_char c) [
  | true ↦ split_tokens (t ∷ ts ++ (c ∷ [])) cs
  | false ↦ (t ∷ ts) ∷ split_tokens [] cs
]

-- `environmentalTokens`; the trimmed ends hold no token.
unfoldable pub environmental_tokens : Text → List Text
unfolding lower split_tokens
environmental_tokens value = split_tokens [] (lower value)

-- The tokens begin with the phrase.
unfoldable pub begins_with : List Text → List Text → Bool
begins_with tokens [] = true
begins_with [] (part ∷ parts) = false
begins_with (token ∷ tokens) (part ∷ parts) = same_text token part && begins_with tokens parts

-- `hasEnvironmentalKeyword`, the keyword being split at its spaces.
unfoldable pub has_environmental_keyword : List Text → List Text → Bool
unfolding begins_with
has_environmental_keyword [] phrase = false
has_environmental_keyword (token ∷ tokens) phrase =
    begins_with (token ∷ tokens) phrase || has_environmental_keyword tokens phrase

abbrev pub power_keywords : List (List Text)
power_keywords =
    (text "utility" ∷ [])
    ∷ (text "ups" ∷ [])
    ∷ (text "voltage" ∷ [])
    ∷ (text "electrical" ∷ [])
    ∷ (text "electric" ∷ [])
    ∷ (text "power" ∷ [])
    ∷ []

abbrev pub thermal_keywords : List (List Text)
thermal_keywords =
    (text "cooling" ∷ [])
    ∷ (text "cooler" ∷ [])
    ∷ (text "air" ∷ text "conditioner" ∷ [])
    ∷ (text "ac" ∷ [])
    ∷ (text "fan" ∷ [])
    ∷ (text "heat" ∷ [])
    ∷ (text "temperature" ∷ [])
    ∷ (text "thermal" ∷ [])
    ∷ []

abbrev pub infrastructure_keywords : List (List Text)
infrastructure_keywords =
    (text "compute" ∷ [])
    ∷ (text "network" ∷ [])
    ∷ (text "storage" ∷ [])
    ∷ (text "platform" ∷ [])
    ∷ (text "server" ∷ [])
    ∷ (text "switch" ∷ [])
    ∷ (text "nas" ∷ [])
    ∷ (text "disk" ∷ [])
    ∷ (text "rack" ∷ [])
    ∷ (text "gpu" ∷ [])
    ∷ (text "uplink" ∷ [])
    ∷ (text "connectivity" ∷ [])
    ∷ (text "host" ∷ [])
    ∷ (text "node" ∷ [])
    ∷ []

unfoldable pub class_of_tokens : List Text → Option IncidentClass
unfolding has_environmental_keyword
class_of_tokens tokens =
    if any_of (has_environmental_keyword tokens) power_keywords
    then some power
    else if any_of (has_environmental_keyword tokens) thermal_keywords
    then some thermal
    else if any_of (has_environmental_keyword tokens) infrastructure_keywords
    then some infrastructure
    else none

-- `none` is the answer `{ ok: false, reason: 'UNSUPPORTED' }`.
unfoldable pub normalize_environmental_fact : Value → Option IncidentClass
unfolding environmental_tokens class_of_tokens is_bounded_text
normalize_environmental_fact (str value) =
    if is_bounded_text 160 value then class_of_tokens (environmental_tokens value) else none
normalize_environmental_fact _ = none
