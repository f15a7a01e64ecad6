-- ===== src/Did/Resolver.antt =====
-- DID documents, did:key and the dispatch on the method (adl_lite/did_resolver.py). The signature
-- checks themselves, and all that did:web and did:ethr fetch, are parameters.
use Prim.Native.Char.{Char, code}
use Prim.Native.String
use adl_lite.Prelude.{
  ℕ, String, Bool, false, ◌&&◌, ◌||◌, Option, none, some, List, [], ◌∷◌, str_eq, ◌==◌, length,
  is_some, if◌then◌else◌,
}
use adl_lite.Prelude.Dict.{Dict, lookup, insert}
use adl_lite.Prelude.Text.{is_empty}
use adl_lite.Prelude.Result.{Result, ok, err, ◌>>=◌, value_error}
use adl_lite.Did.{index, base58btc_encode, base58btc_decode}

pub record VerificationMethod : Type 0 where
  pub id : String
  pub type_name : String
  pub controller : String
  pub public_key_bytes : List ℕ
  pub format : String
  pub address : Option String

pub record DidDocument : Type 0 where
  pub id : String
  pub verification_methods : List VerificationMethod
  pub assertion_method : List String

-- `s[len(prefix):]`, where `s.startswith(prefix)`.
unfoldable pub strip_prefix : String → String → Option String
strip_prefix String.[] s = some s
strip_prefix (String.◌∷◌ c p) String.[] = none
strip_prefix (String.◌∷◌ c p) (String.◌∷◌ d s) =
    let rest = strip_prefix p s in if code c == code d then rest else none

unfoldable pub put_first : Char → List String → List String
put_first c [] = String.◌∷◌ c "" ∷ []
put_first c (s ∷ ss) = String.◌∷◌ c s ∷ ss

-- `s.split(":")`
unfoldable pub split_colons : String → List String
unfolding put_first
split_colons String.[] = "" ∷ []
split_colons (String.◌∷◌ c s) =
    let rest = split_colons s in if code c == b':' then "" ∷ rest else put_first c rest

unfoldable pub last_or : String → List String → String
last_or s [] = s
last_or s (t ∷ ts) = last_or t ts

-- What `[a-km-zA-HJ-NP-Z1-9]*` matches at the start: the class is the base58 alphabet.
unfoldable pub base58_run : String → String
base58_run String.[] = ""
base58_run (String.◌∷◌ c s) =
    let rest = base58_run s in if is_some (index c) then String.◌∷◌ c rest else ""

-- The multicodec prefix 0xED 0x01, and then 32 bytes.
unfoldable pub ed25519_key : List ℕ → Result (List ℕ)
ed25519_key (a ∷ b ∷ key) =
    if a == 0xed
    then (if b == 0x01
        then (if length key == 32 then ok key else err value_error)
        else err value_error)
    else err value_error
ed25519_key _ = err value_error

-- The document of a did:key.
unfoldable pub key_document : String → List ℕ → DidDocument
unfolding split_colons last_or
key_document did key =
    let vm_id = String.◌++◌ did (String.◌++◌ "#" (last_or "" (split_colons did))) in
    record {
      id = did;
      verification_methods =
          record {
            id = vm_id;
            type_name = "Ed25519VerificationKey2020";
            controller = did;
            public_key_bytes = key;
            format = "multibase";
            address = none;
          }
          ∷ [];
      assertion_method = vm_id ∷ [];
    }

-- The text that the pattern `did:key:z(…)` captures; `re.match` leaves what follows it aside.
unfoldable pub multibase : String → Result String
unfolding strip_prefix base58_run
multibase did = elim (strip_prefix "did:key:z" did) [
  | none ↦ err value_error
  | some s ↦ if is_empty (base58_run s) then err value_error else ok (base58_run s)
]

unfoldable pub resolve_did_key : String → Result DidDocument
unfolding multibase ed25519_key key_document
resolve_did_key did = do
  run ← multibase did
  raw ← elim (base58btc_decode run) [ none ↦ err value_error | some bytes ↦ ok bytes ]
  key ← ed25519_key raw
  ok (key_document did key)

-- `create_did_key` of the raw bytes of a public key.
unfoldable pub create_did_key : List ℕ → String
create_did_key key = String.◌++◌ "did:key:z" (base58btc_encode (0xed ∷ 0x01 ∷ key))

unfoldable pub by_id : List VerificationMethod → Dict VerificationMethod → Dict VerificationMethod
by_id [] d = d
by_id (vm ∷ vms) d = by_id vms (insert vm.id vm d)

unfoldable pub ids_of : List VerificationMethod → List String
ids_of [] = []
ids_of (vm ∷ vms) = vm.id ∷ ids_of vms

unfoldable pub first_known : List String → Dict VerificationMethod → Option VerificationMethod
first_known [] d = none
first_known (id ∷ ids) d =
    let rest = first_known ids d in elim (lookup id d) [ none ↦ rest | some vm ↦ some vm ]

-- `key_for_purpose("assertionMethod")`
unfoldable pub assertion_key : DidDocument → Option VerificationMethod
unfolding by_id ids_of first_known
assertion_key doc =
    let ids : List String = elim doc.assertion_method [
      | [] ↦ ids_of doc.verification_methods
      | x ∷ xs ↦ x ∷ xs
    ] in
    first_known ids (by_id doc.verification_methods [])

-- `DIDResolver._method`
unfoldable pub method : String → Result String
unfolding split_colons strip_prefix
method did = elim (strip_prefix "did:" did) [
  | none ↦ err value_error
  | some _ ↦ (elim (split_colons did) [ _ ∷ name ∷ _ ∷ _ ↦ ok name | _ ↦ err value_error ])
]

-- `is_did`
unfoldable pub is_did : String → Bool
unfolding method
is_did actor = elim (method actor) [
  | err _ ↦ false
  | ok name ↦ str_eq name "key" || str_eq name "web" || str_eq name "ethr"
]

-- `vm.type in ("Ed25519VerificationKey2020", "Ed25519VerificationKey2018")`
unfoldable pub is_ed25519 : VerificationMethod → Bool
is_ed25519 vm =
    str_eq vm.type_name "Ed25519VerificationKey2020"
    || str_eq vm.type_name "Ed25519VerificationKey2018"

unfoldable pub is_secp256k1 : VerificationMethod → Bool
is_secp256k1 vm =
    str_eq vm.type_name "EcdsaSecp256k1VerificationKey2019"
    || str_eq vm.type_name "EcdsaSecp256k1RecoveryMethod2020"

-- `base64.b64decode` (`none` is an exception), the checks of a signature under raw key bytes
-- (`false` also where they raise), the document of a did:web, which is fetched, and the check of
-- did:ethr. The message is a text, which the program encodes as UTF-8.
pub record Signatures : Type 0 where
  pub b64decode : String → Option (List ℕ)
  pub ed25519_verify : List ℕ → String → List ℕ → Bool
  pub secp256k1_verify : List ℕ → String → List ℕ → Bool
  pub resolve_did_web : String → Option DidDocument
  pub ethr_verify : String → String → List ℕ → Bool

module _ ⦃k : Signatures⦄ where
  -- The branch for did:key. A document without a usable key raises, and the signature is refused.
  unfoldable pub key_verify : String → String → List ℕ → Bool
  unfolding resolve_did_key assertion_key is_ed25519
  key_verify did message signature = elim (resolve_did_key did) [
    | err _ ↦ false
    | ok doc ↦ (elim (assertion_key doc) [
      | none ↦ false
      | some vm ↦ is_ed25519 vm && k.ed25519_verify vm.public_key_bytes message signature
    ])
  ]

  -- The branch for did:web.
  unfoldable pub web_verify : String → String → List ℕ → Bool
  unfolding assertion_key is_ed25519 is_secp256k1
  web_verify did message signature = elim (k.resolve_did_web did) [
    | none ↦ false
    | some doc ↦ (elim (assertion_key doc) [
      | none ↦ false
      | some vm ↦
          if is_ed25519 vm
          then k.ed25519_verify vm.public_key_bytes message signature
          else if is_secp256k1 vm
          then k.secp256k1_verify vm.public_key_bytes message signature
          else false
    ])
  ]

  -- `verify_did_signature`. The method is taken outside of its `try`.
  unfoldable pub verify_did_signature : String → String → List ℕ → Result Bool
  unfolding method key_verify web_verify
  verify_did_signature did message signature = do
    name ← method did
    ok (
        if str_eq name "key"
        then key_verify did message signature
        else if str_eq name "web"
        then web_verify did message signature
        else if str_eq name "ethr"
        then k.ethr_verify did message signature
        else false)
