-- ===== src/Transport.antt =====
-- internal/oci/transport.go: an HTTP transport that keeps manifests and image configs, which are
-- addressed by digest, in the disk cache. The transport below it is a parameter, over a state of
-- its own. Header values are ASCII.
pub mod Entries
pub mod Decimal
pub mod Replay
use ocifuse.Prelude.{
  ℕ, zero, suc, ◌+◌, ◌-◌, ◌*◌, ◌/◌, ◌%◌, ◌≡◌, Bool, true, false, ◌&&◌, ◌||◌, not, Option, none,
  some, List, [], ◌∷◌, ◌++◌, Bytes, codes, bytes_eq, nat_eq, ◌==◌, length, take, drop, leb, nat_beq,
  any, if◌then◌else◌, Result, ok, err,
}
use ocifuse.Strings.{has_prefix, contains, index}
use ocifuse.DiskCache.{DiskCache, Disk, Faults, IoError, open_value, write}

pub record Request : Type 0 where
  pub method : Bytes
  pub range : Bytes
  pub path : Bytes

-- `body` is what reading the body gives.
pub record Response (E : Type 0) : Type 0 where
  pub status : ℕ
  pub content_type : Bytes
  pub body : Result E Bytes
  pub content_length : Option Bytes

-- strings.HasSuffix
abbrev pub has_suffix : Bytes → Bytes → Bool
has_suffix s t = leb (length t) (length s) && drop (length s - length t) s == t

abbrev pub is_hex : ℕ → Bool
is_hex c = (leb b'0' c && leb c b'9') || (leb b'a' c && leb c b'f')

abbrev pub all_hex : Bytes → Bool
all_hex s = not (any (λ c. not (is_hex c)) s)

-- `.+`: some characters, none of which is a line feed.
abbrev pub is_repository : Bytes → Bool
is_repository [] = false
is_repository (c ∷ s) = not (any (λ d. nat_beq d 10) (c ∷ s))

-- What comes before the kind of the path, and the slash before it.
abbrev pub is_repository_before : Bytes → Bytes → Bool
is_repository_before s kind = has_suffix s kind && is_repository (take (length s - length kind) s)

-- ^/v2/.+/(manifests|blobs)/sha256:[0-9a-f]{64}$, whose last 72 characters are "/sha256:" and the
-- digest.
unfoldable pub is_digest_path : Bytes → Bool
is_digest_path p =
    let tail = drop (length p - 72) p in
    let head = take (length p - 72) p in
    has_prefix p (codes "/v2/")
    && leb 76 (length p)
    && has_prefix tail (codes "/sha256:")
    && all_hex (drop 8 tail)
    && (is_repository_before (drop 4 head) (codes "/manifests")
        || is_repository_before (drop 4 head) (codes "/blobs"))

-- strings.ToLower
abbrev pub to_lower : Bytes → Bytes
to_lower [] = []
to_lower (c ∷ s) = (if leb b'A' c && leb c b'Z' then c + 32 else c) ∷ to_lower s

unfoldable pub cacheable_content_type : Bytes → Bool
cacheable_content_type content_type =
    let ct = to_lower content_type in
    if contains ct (codes "manifest")
    then true
    else if contains ct (codes "image.index")
    then true
    else contains ct (codes "image.config") || contains ct (codes "container.image.v1+json")

pub record CachedEntry : Type 0 where
  pub content_type : Bytes
  pub body : Bytes

-- "\n\n"
abbrev pub blank_line : Bytes
blank_line = 10 ∷ 10 ∷ []

unfoldable pub parse_entry : Bytes → Option CachedEntry
parse_entry raw = elim (index raw blank_line) [
  | none ↦ none
  | some idx ↦ some (record { content_type = take idx raw; body = drop (idx + 2) raw })
]

abbrev pub print_entry : Bytes → Bytes → Bytes
print_entry content_type body = content_type ++ (blank_line ++ body)

-- buf[i:], after the loop on n: a digit a round, 20 at most.
unfoldable pub itoa_loop : ℕ → ℕ → Bytes → Bytes
itoa_loop zero n buf = buf
itoa_loop (suc fuel) zero buf = buf
itoa_loop (suc fuel) (suc n) buf = itoa_loop fuel (suc n / 10) ((b'0' + suc n % 10) ∷ buf)

unfoldable pub itoa : ℕ → Bytes
itoa zero = codes "0"
itoa (suc n) = itoa_loop 20 (suc n) []

abbrev pub to_response : {E : Type 0} → CachedEntry → Response E
to_response e = record {
  status = 200;
  content_type = e.content_type;
  body = ok e.body;
  content_length = some (itoa (length e.body));
}

pub record Stores (W : Type 0) : Type 0 where
  pub world : W
  pub cache : DiskCache
  pub disk : Disk

-- The calls of one request that fail, and the times of its reads and writes. `output_error` is an
-- error of a write to the temporary file.
pub record Run : Type 0 where
  pub opening : Faults
  pub opened : ℕ
  pub read_failed : Bool
  pub writing : Faults
  pub wrote : ℕ
  pub output_error : Option IoError

module _ {W E : Type 0} (base : W → Request → Result E (Response E) × W) where
  unfoldable pub load_cached : Run → Bytes → Stores W → Option CachedEntry × Stores W
  load_cached run key s =
      let (opened, disk) = open_value run.opening run.opened s.cache key s.disk in
      (
        elim opened [ err e ↦ none | ok raw ↦ if run.read_failed then none else parse_entry raw ],
        record s { disk = disk },
      )

  unfoldable pub store_cached : Run → Bytes → Bytes → Bytes → Stores W → Stores W
  store_cached run key content_type body s =
      let output : Result IoError Bytes = elim run.output_error [
        | some e ↦ err e
        | none ↦ ok (print_entry content_type body)
      ] in
      let (error, (cache, disk)) = write run.writing run.wrote s.cache key output s.disk in
      record s { cache = cache; disk = disk }

  -- What is done with a response from below.
  abbrev pub keep_body :
      Run → Bytes → Response E → Stores W → Result E Bytes → Result E (Response E) × Stores W
  keep_body run key resp s (err e) = (err e, s)
  keep_body run key resp s (ok body) = (ok resp, store_cached run key resp.content_type body s)

  abbrev pub keep : Run → Bytes → Response E → Stores W → Result E (Response E) × Stores W
  keep run key resp s =
      if not (nat_beq resp.status 200)
      then (ok resp, s)
      else if not (cacheable_content_type resp.content_type)
      then (ok resp, s)
      else keep_body run key resp s resp.body

  abbrev pub receive :
      Run → Bytes → Stores W → Result E (Response E) → Result E (Response E) × Stores W
  receive run key s (err e) = (err e, s)
  receive run key s (ok resp) = keep run key resp s

  abbrev pub forward : Request → Stores W → Result E (Response E) × Stores W
  forward req s = let (result, world) = base s.world req in (result, record s { world = world })

  abbrev pub fetch : Run → Bytes → Request → Stores W → Result E (Response E) × Stores W
  fetch run key req s = let (result, after) = forward req s in receive run key after result

  abbrev pub is_cached_request : Request → Bool
  is_cached_request req = req.method == codes "GET" && req.range == [] && is_digest_path req.path

  unfoldable pub round_trip : Run → Request → Stores W → Result E (Response E) × Stores W
  round_trip run req s =
      if not (is_cached_request req)
      then forward req s
      else let key = codes "registry" ++ req.path in
        let (entry, looked) = load_cached run key s in
        elim entry [ some e ↦ (ok (to_response e), looked) | none ↦ fetch run key req looked ]
