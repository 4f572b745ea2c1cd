-- ===== src/Examples/Toys.antt =====
-- A concrete instance of the external crates, of the environment and of the database.
use Prim.Native.Char.{code}
use home_ryanseipp.Prelude.{
  ℕ, zero, suc, ◌+◌, String, Bool, true, false, ◌&&◌, Option, none, some, List, [], ◌∷◌, ◌≡◌, refl,
  ap, ◌∙◌, str_eq, is_none, ◌==◌, if◌then◌else◌, arith, eq_iff,
}
use home_ryanseipp.Prelude.Text.{contains_char}
use home_ryanseipp.Effect.{Bytes, Env, World}
use home_ryanseipp.Crypto.Primitives.{
  Algorithm, es256, es384, JwtHeader, Claims, Primitives, Base64Laws, JsonLaws, SignatureLaws,
}
use home_ryanseipp.Identity.Accounts.{Db, Externals}

-- A byte `n` is written as `n` letters "a" and a "b".
abbrev pub letters : ℕ → String → String
letters zero s = String.◌∷◌ "b" s
letters (suc n) s = String.◌∷◌ "a" (letters n s)

abbrev pub encode : Bytes → String
encode [] = ""
encode (n ∷ bs) = letters n (encode bs)

abbrev prepend : ℕ → Option Bytes → Option Bytes
prepend n none = none
prepend n (some bs) = some (n ∷ bs)

abbrev pub decode_from : ℕ → String → Option Bytes
decode_from n String.[] = if n == 0 then some [] else none
decode_from n (String.◌∷◌ c s) =
    let more = decode_from (suc n) s in
    let next = decode_from 0 s in
    if code c == b'a' then more else if code c == b'b' then prepend n next else none

pub decode-letters :
    (k n : ℕ) (s : String) → decode_from k (letters n s) ≡ prepend (n + k) (decode_from 0 s)
decode-letters k zero s = ap (λ m. prepend m (decode_from 0 s)) (ground arith)
decode-letters k (suc n) s =
    decode-letters (suc k) n s ∙ ap (λ m. prepend m (decode_from 0 s)) (ground arith)

decode-encode : (bs : Bytes) → decode_from 0 (encode bs) ≡ some bs
decode-encode [] = refl
decode-encode (n ∷ bs) =
    decode-letters 0 n (encode bs) ∙ rw (decode-encode bs) (ap (λ m. some (m ∷ bs)) (ground arith))

no_dot_letters : (n : ℕ) (s : String) → contains_char b'.' (letters n s) ≡ contains_char b'.' s
no_dot_letters zero s = refl
no_dot_letters (suc n) s = no_dot_letters n s

no_dot : (bs : Bytes) → contains_char b'.' (encode bs) ≡ false
no_dot [] = refl
no_dot (n ∷ bs) = no_dot_letters n (encode bs) ∙ no_dot bs

abbrev pub toy_header : JwtHeader
toy_header = record { alg = "ES256"; typ = "JWT"; kid = "key-1" }

abbrev pub is_toy_header : JwtHeader → Bool
is_toy_header h = str_eq h.alg "ES256" && str_eq h.typ "JWT" && str_eq h.kid "key-1"

abbrev pub claims_until : ℕ → Claims
claims_until t = record {
  iss = none;
  sub = none;
  aud = none;
  exp = some t;
  nbf = none;
  iat = none;
  jti = none;
  name = none;
  given_name = none;
  family_name = none;
  email = none;
  email_verified = none;
  preferred_username = none;
  custom = [];
}

abbrev is_nil : List (String × String) → Bool
is_nil [] = true
is_nil (c ∷ cs) = false

-- only the expiry is there
abbrev pub has_only_expiry : Claims → Bool
has_only_expiry c =
    is_none c.iss
    && is_none c.sub
    && is_none c.aud
    && is_none c.nbf
    && is_none c.iat
    && is_none c.jti
    && is_none c.name
    && is_none c.given_name
    && is_none c.family_name
    && is_none c.email
    && is_none c.email_verified
    && is_none c.preferred_username
    && is_nil c.custom

abbrev expiry_bytes : Option ℕ → Option Bytes
expiry_bytes none = none
expiry_bytes (some t) = some (t ∷ [])

abbrev read_expiry : Bytes → Option Claims
read_expiry [] = none
read_expiry (t ∷ bs) = some (claims_until t)

abbrev repeat : ℕ → Bytes
repeat zero = []
repeat (suc n) = 1 ∷ repeat n

abbrev pub toy_point : Algorithm → Bytes
toy_point es256 = 4 ∷ repeat 64
toy_point es384 = 4 ∷ repeat 96

abbrev pub toy_primitives : Primitives
toy_primitives = record {
  b64_encode = encode;
  b64_decode = decode_from 0;
  b64_std_decode = decode_from 0;
  sha256 = λ b. b;
  header_to_json = λ h. if is_toy_header h then some (1 ∷ []) else none;
  header_of_json = λ b. some toy_header;
  claims_to_json = λ c. if has_only_expiry c then expiry_bytes c.exp else none;
  claims_of_json = read_expiry;
  jwk_to_json = λ j. some "jwk";
  jwk_of_json = λ s. none;
  jwk_set_to_json = λ l. some "set";
  generate_pkcs8 = λ a n. some (n ∷ []);
  accepts_pkcs8 = λ a b. true;
  public_key = λ a b. toy_point a;
  ecdsa_sign = λ a b n m. some (1 ∷ 2 ∷ []);
  ecdsa_verify = λ a k m s. true;
  seal = λ k n a t. some t;
  unseal = λ k n a t. some t;
  phc_hash = λ s n. some "phc";
  accepts_phc = λ s. true;
  phc_matches = λ s t. true;
  uuid_to_string = λ n. "id";
  uuid_of_string = λ s. some 0;
}

pub toy_base64 : Base64Laws toy_primitives
toy_base64 = record { decode-encode = decode-encode; no_dot = no_dot }

header_round :
    (h : JwtHeader) (b : Bytes)
    → toy_primitives.header_to_json h ≡ some b
    → toy_primitives.header_of_json b ≡ some h
header_round h b e = ground (arith, eq_iff h.alg "ES256", eq_iff h.typ "JWT", eq_iff h.kid "key-1")

claims_round :
    (c : Claims) (b : Bytes)
    → c.custom ≡ []
    → toy_primitives.claims_to_json c ≡ some b
    → toy_primitives.claims_of_json b ≡ some c
claims_round c b plain e = ground arith

pub toy_json : JsonLaws toy_primitives
toy_json = record { header_round = header_round; claims_round = claims_round }

pub toy_signatures : SignatureLaws toy_primitives
toy_signatures = record { verify-sign = λ a der r m s e. refl }

-- Every call succeeds; the clock and the ids count the calls.
abbrev pub toy_env : Env
toy_env = record {
  fails = λ n. false;
  now = λ n. n;
  uuid = λ n. n;
  rand = λ n. some (7 ∷ 3 ∷ []);
  span = λ n. none;
}

abbrev pub toy_externals : Externals
toy_externals = record { lower = λ s. s; encode_to_vec = λ m. 1 ∷ [] }

abbrev pub empty_db : Db
empty_db = record { users = []; tokens = []; refresh_tokens = []; signing_keys = []; outbox = [] }

abbrev pub start : World Db
start = record { db = empty_db; calls = 0 }
