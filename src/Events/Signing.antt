-- ===== src/Events/Signing.antt =====
-- `verify_signature` of agent-platform/events/signing.py. The lower case is that of ASCII; a text
-- that `int(text, 16)` accepts and that is not of hexadecimal digits differs from every digest.
use cortxt.Prelude.{
  ℕ, String, Bool, false, ◌&&◌, ◌||◌, not, Option, none, some, List, [], ◌∷◌, leb, eqb, ◌==◌,
  is_blank, codes, same_codes, strip, lower, length, all, if◌then◌else◌,
}
use cortxt.Platform.{Platform}

-- `text[7:]` if the text starts with `sha256=`, in any case
unfoldable pub drop_prefix : List ℕ → List ℕ
unfolding lower
drop_prefix (a ∷ b ∷ c ∷ d ∷ e ∷ f ∷ g ∷ cs) =
    if same_codes (lower (a ∷ b ∷ c ∷ d ∷ e ∷ f ∷ g ∷ [])) (codes "sha256=")
    then cs
    else a ∷ b ∷ c ∷ d ∷ e ∷ f ∷ g ∷ cs
drop_prefix cs = cs

abbrev is_hex : ℕ → Bool
is_hex c = leb b'0' c && leb c b'9' || leb b'a' c && leb c b'f' || leb b'A' c && leb c b'F'

unfoldable pub known_scheme : String → Bool
unfolding strip lower
known_scheme scheme =
    let norm = lower (strip (codes scheme)) in
    same_codes norm (codes "sha256")
    || same_codes norm (codes "x-hub-signature-256")
    || same_codes norm (codes "x-cortxt-signature")

module _ (p : Platform) where
  unfoldable pub verify_signature : String → String → Option String → String → Bool
  unfolding known_scheme drop_prefix strip lower is_blank
  verify_signature payload secret none scheme = false
  verify_signature payload secret (some signature) scheme =
      let expected = codes (p.hmac_sha256 secret payload) in
      let actual = drop_prefix (strip (codes signature)) in
      not (is_blank signature)
      && not (secret == "")
      && known_scheme scheme
      && eqb (length actual) (length expected)
      && all is_hex actual
      && same_codes (lower actual) (lower expected)
