-- ===== src/Crypto/Binding.antt =====
-- What the additional authenticated data says of the record that it was built from.
use configdeck.Crypto.Aad.{
  CurrentValueContext, ProposedValueContext, field, wrapped_dek_aad, current_value_aad,
  proposed_value_aad, totp_aad, import_preview_aad,
}
use configdeck.Crypto.Bytes.{be_bytes, length-be_bytes, of_bytes, of_be_bytes4, of_be_bytes8}
use configdeck.Prelude.Fallible.{◌>>=◌, >>=-eq-some}
use configdeck.Prelude.{
  ℕ, ◌^◌, ◌<◌, ◌≡◌, refl, sym, ap, ◌∙◌, List, [], ◌∷◌, ◌++◌, Option, some, Text, codes, length,
  arith, All, append_injective,
}
use mathlib.Core.List.{append-nil, append_assoc}

-- The records that ciphertexts are bound to.
pub data Context : Type 0 where
  environment_dek : Text → ℕ → ℕ → Context
  variable_current : CurrentValueContext → Context
  change_request_proposed_value : ProposedValueContext → Context
  totp_seed : Text → ℕ → Context
  import_preview : Text → Text → Text → Context

unfoldable pub aad : Context → Option Text
aad (environment_dek e d k) = wrapped_dek_aad e d k
aad (variable_current c) = current_value_aad c
aad (change_request_proposed_value c) = proposed_value_aad c
aad (totp_seed u v) = totp_aad u v
aad (import_preview u s e) = import_preview_aad u s e

-- The fields, in order, that the data of each kind is built of.
abbrev layout : Context → List Text
layout (environment_dek e d k) = codes "environment-dek" ∷ e ∷ be_bytes 8 d ∷ be_bytes 8 k ∷ []
layout (variable_current c) =
    codes "variable-current"
    ∷ c.service_id
    ∷ c.environment_id
    ∷ c.variable_id
    ∷ be_bytes 8 c.version
    ∷ be_bytes 8 c.dek_version
    ∷ []
layout (change_request_proposed_value c) =
    codes "change-request-proposed-value"
    ∷ c.service_id
    ∷ c.environment_id
    ∷ c.change_request_id
    ∷ c.item_id
    ∷ be_bytes 8 c.item_revision
    ∷ be_bytes 8 c.dek_version
    ∷ []
layout (totp_seed u v) = codes "totp-seed" ∷ u ∷ be_bytes 8 v ∷ []
layout (import_preview u s e) = codes "import-preview" ∷ u ∷ s ∷ e ∷ []

append_fields : List Text → Text → Option Text
append_fields [] acc = some acc
append_fields (f ∷ fs) acc = field acc f >>= append_fields fs

abbrev encode : List Text → Text
encode [] = []
encode (f ∷ fs) = be_bytes 4 (length f) ++ (f ++ encode fs)

abbrev IsShort : Text → Type 0
IsShort f = length f < 2 ^ 32

aad-layout : (c : Context) → aad c ≡ append_fields (codes "configdeck" ∷ layout c) (1 ∷ [])
unfolding aad append_fields wrapped_dek_aad current_value_aad proposed_value_aad totp_aad
    import_preview_aad field be_bytes
aad-layout (environment_dek e d k) = refl
aad-layout (variable_current c) = refl
aad-layout (change_request_proposed_value c) = refl
aad-layout (totp_seed u v) = refl
aad-layout (import_preview u s e) = refl

field-eq-some :
    (acc f : Text) {r : Text}
    → field acc f ≡ some r
    → (r ≡ acc ++ (be_bytes 4 (length f) ++ f)) × IsShort f
unfolding field
field-eq-some acc f h = ground arith

append_fields-eq-some :
    (fs : List Text) (acc : Text) {r : Text}
    → append_fields fs acc ≡ some r
    → (r ≡ acc ++ encode fs) × All IsShort fs
unfolding append_fields
append_fields-eq-some [] acc {r} h = (let e : r ≡ acc = cc in e ∙ sym (append-nil acc), tt)
append_fields-eq-some (f ∷ fs) acc h =
    let (a, p, q) = >>=-eq-some (field acc f) (append_fields fs) h in
    let (e, short) = field-eq-some acc f p in
    let (e', shorts) = append_fields-eq-some fs a q in
    (e' ∙ ap (λ l. l ++ encode fs) e ∙ simp append_assoc, (short, shorts))

be_bytes4_injective : (n m : ℕ) → n < 2 ^ 32 → m < 2 ^ 32 → be_bytes 4 n ≡ be_bytes 4 m → n ≡ m
be_bytes4_injective n m h k e = sym (of_be_bytes4 n h) ∙ ap (of_bytes 0) e ∙ of_be_bytes4 m k

encode_injective :
    (fs gs : List Text) → All IsShort fs → All IsShort gs → encode fs ≡ encode gs → fs ≡ gs
unfolding be_bytes
encode_injective [] [] s t e = refl
encode_injective [] (g ∷ gs) s t e = cc
encode_injective (f ∷ fs) [] s t e = cc
encode_injective (f ∷ fs) (g ∷ gs) s t e =
    let (p, q) =
      append_injective (be_bytes 4 (length f)) (be_bytes 4 (length g)) _ _
        (length-be_bytes 4 (length f) ∙ sym (length-be_bytes 4 (length g))) e in
    let same = be_bytes4_injective (length f) (length g) s.0 t.0 p in
    let (hd, tl) = append_injective f g _ _ same q in
    let rest = encode_injective fs gs s.1 t.1 tl in cc

be_bytes8_injective : (n m : ℕ) → n < 2 ^ 64 → m < 2 ^ 64 → be_bytes 8 n ≡ be_bytes 8 m → n ≡ m
be_bytes8_injective n m h k e = sym (of_be_bytes8 n h) ∙ ap (of_bytes 0) e ∙ of_be_bytes8 m k

-- The numbers of a context are `u64`.
abbrev pub IsU64 : Context → Type 0
IsU64 (environment_dek e d k) = (d < 2 ^ 64) × (k < 2 ^ 64)
IsU64 (variable_current c) = (c.version < 2 ^ 64) × (c.dek_version < 2 ^ 64)
IsU64 (change_request_proposed_value c) = (c.item_revision < 2 ^ 64) × (c.dek_version < 2 ^ 64)
IsU64 (totp_seed u v) = v < 2 ^ 64
IsU64 (import_preview u s e) = Unit

layout_injective : (c d : Context) → IsU64 c → IsU64 d → layout c ≡ layout d → c ≡ d
layout_injective (environment_dek e d k) (environment_dek e' d' k') h h' p =
    cc (be_bytes8_injective d d' h.0 h'.0 cc, be_bytes8_injective k k' h.1 h'.1 cc)
layout_injective (variable_current c) (variable_current c') h h' p = cc (
  be_bytes8_injective c.version c'.version h.0 h'.0 cc,
  be_bytes8_injective c.dek_version c'.dek_version h.1 h'.1 cc,
)
layout_injective (change_request_proposed_value c) (change_request_proposed_value c') h h' p = cc (
  be_bytes8_injective c.item_revision c'.item_revision h.0 h'.0 cc,
  be_bytes8_injective c.dek_version c'.dek_version h.1 h'.1 cc,
)
layout_injective (totp_seed u v) (totp_seed u' v') h h' p = cc (be_bytes8_injective v v' h h' cc)
layout_injective (import_preview u s e) (import_preview u' s' e') h h' p = cc
layout_injective _ _ h h' p = cc

-- Two records whose authenticated data is built without a panic and comes out equal are of one
-- kind and the same record: no kind can pass for another, and no field's end can be moved.
pub aad_injective :
    (c d : Context) {bytes : Text}
    → IsU64 c
    → IsU64 d
    → aad c ≡ some bytes
    → aad d ≡ some bytes
    → c ≡ d
aad_injective c d h k p q =
    let (e, s) =
      append_fields-eq-some (codes "configdeck" ∷ layout c) (1 ∷ []) (sym (aad-layout c) ∙ p) in
    let (e', s') =
      append_fields-eq-some (codes "configdeck" ∷ layout d) (1 ∷ []) (sym (aad-layout d) ∙ q) in
    let same : encode (codes "configdeck" ∷ layout c) ≡ encode (codes "configdeck" ∷ layout d) =
      cc in
    let fields : codes "configdeck" ∷ layout c ≡ codes "configdeck" ∷ layout d =
      encode_injective _ _ s s' same in
    layout_injective c d h k cc
