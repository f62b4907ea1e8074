-- ===== src/Transport/Replay.antt =====
-- internal/oci/transport.go: one request after another.
use ocifuse.Prelude.{
  ℕ, suc, ◌≤◌, ◌<◌, ◌≡◌, refl, ap, ◌∙◌, pos, true, false, none, some, nat_beq, nat_beq_iff, Bytes,
  codes, bytes_eq, ◌++◌, length, Result, ok, All,
}
use ocifuse.Prelude.Dict.{lookup}
use ocifuse.Strings.Laws.{Lacks}
use ocifuse.DiskCache.{File, is_below, path_of, open_value, write}
use ocifuse.DiskCache.Listed.{ListsAll}
use ocifuse.DiskCache.Accounts.{IsAccounted}
use ocifuse.DiskCache.RoundTrip.{open_value-write, open_value-write_after}
use ocifuse.Transport.{
  Request, Response, CachedEntry, print_entry, to_response, Stores, Run, load_cached, store_cached,
  receive, keep, keep_body, is_cached_request, cacheable_content_type, round_trip,
}
use ocifuse.Transport.Entries.{parse_entry-print_entry}

module _ {W E : Type 0} (base : W → Request → Result E (Response E) × W) where
  load_cached_absent :
      (run : Run) (key : Bytes) (s : Stores W)
      → lookup (path_of s.cache key) s.disk ≡ none
      → load_cached base run key s ≡ (none, s)
  unfolding load_cached open_value
  load_cached_absent run key s h = rw (h, load_cached, open_value) refl

  load_cached_world :
      (run : Run) (key : Bytes) (s : Stores W) → (load_cached base run key s).1.world ≡ s.world
  unfolding load_cached
  load_cached_world run key s = refl

  load_cached_present :
      (run : Run) (key ct body : Bytes) (s : Stores W)
      → Lacks 10 ct
      → run.read_failed ≡ false
      → (open_value run.opening run.opened s.cache key s.disk).0 ≡ ok (print_entry ct body)
      → (load_cached base run key s).0 ≡ some (record { content_type = ct; body = body })
  unfolding load_cached
  load_cached_present run key ct body s l r h =
      rw (h, r, load_cached) (parse_entry-print_entry ct body l)

  store_cached_written :
      (run : Run) (key ct body : Bytes) (s : Stores W)
      → run.output_error ≡ none
      → store_cached base run key ct body s ≡ (
          let out = (write run.writing run.wrote s.cache key (ok (print_entry ct body)) s.disk).1 in
          record { world = s.world; cache = out.0; disk = out.1 })
  unfolding store_cached
  store_cached_written run key ct body s h = rw (h, store_cached) refl

  keep_lem :
      (run : Run) (key : Bytes) (resp : Response E) (body : Bytes) (s : Stores W)
      → resp.status ≡ 200
      → cacheable_content_type resp.content_type ≡ true
      → resp.body ≡ ok body
      → keep base run key resp s ≡ (ok resp, store_cached base run key resp.content_type body s)
  keep_lem run key resp body s status kept held =
      let good : nat_beq resp.status 200 ≡ true = (nat_beq_iff resp.status 200).1 status in
      rw (good, kept) (ap (keep_body base run key resp s) held)

  round_trip_miss :
      (run : Run) (req : Request) (s : Stores W) (resp : Response E) (w : W) (body : Bytes)
      → is_cached_request base req ≡ true
      → lookup (path_of s.cache (codes "registry" ++ req.path)) s.disk ≡ none
      → base s.world req ≡ (ok resp, w)
      → resp.status ≡ 200
      → cacheable_content_type resp.content_type ≡ true
      → resp.body ≡ ok body
      → round_trip base run req s ≡ (
        ok resp,
        store_cached base run
            (codes "registry" ++ req.path)
            resp.content_type
            body
            (record s { world = w }),
      )
  unfolding round_trip
  round_trip_miss run req s resp w body cached absent below status kept held =
      let missed = load_cached_absent run (codes "registry" ++ req.path) s absent in
      rw (cached, missed, missed, round_trip)
        (ap (λ r. receive base run (codes "registry" ++ req.path) (record s { world = r.1 }) r.0)
            below
          ∙ keep_lem run (codes "registry" ++ req.path) resp body (record s { world = w }) status
              kept held)

  round_trip_hit :
      (run : Run) (req : Request) (s : Stores W) (e : CachedEntry)
      → is_cached_request base req ≡ true
      → (load_cached base run (codes "registry" ++ req.path) s).0 ≡ some e
      → round_trip base run req s
        ≡ (ok (to_response e), (load_cached base run (codes "registry" ++ req.path) s).1)
  unfolding round_trip
  round_trip_hit run req s e cached h = rw (cached, h, round_trip) refl

  -- A cacheable 200 response to a GET of a digest path without a Range header, which was not
  -- on disk, answers the next such request: with status 200, its content type and its body,
  -- and without a request to the registry. The content type has no line feed. The entry fits a
  -- positive limit and is written without an error below the directory of a cache whose
  -- tracked size is exact, files can be listed and removed and are all older, and the new one
  -- can be opened and read.
  pub round_trip_again :
      (run again : Run) (req : Request) (s : Stores W) (resp : Response E) (w : W) (body : Bytes)
      (room : ℕ)
      → is_cached_request base req ≡ true
      → lookup (path_of s.cache (codes "registry" ++ req.path)) s.disk ≡ none
      → base s.world req ≡ (ok resp, w)
      → resp.status ≡ 200
      → cacheable_content_type resp.content_type ≡ true
      → Lacks 10 resp.content_type
      → resp.body ≡ ok body
      → run.output_error ≡ none
      → s.cache.cap ≡ pos (suc room)
      → is_below s.cache.dir (path_of s.cache (codes "registry" ++ req.path)) ≡ true
      → run.writing.stat_before ≡ false
      → ListsAll run.writing
      → ((q : Bytes) → run.writing.not_removed q ≡ false)
      → IsAccounted s.cache s.disk
      → All (λ (qf : Bytes × File). qf.1.mtime < run.wrote) s.disk
      → length (print_entry resp.content_type body) ≤ suc room
      → (write run.writing run.wrote s.cache
          (codes "registry" ++ req.path)
          (ok (print_entry resp.content_type body))
          s.disk).0
        ≡ none
      → again.opening.open_file ≡ none
      → again.read_failed ≡ false
      → let out = round_trip base again req (round_trip base run req s).1 in
        (out.0 ≡ ok (to_response (record { content_type = resp.content_type; body = body })))
        × (out.1.world ≡ w)
  round_trip_again run again req s resp w body room cached absent below status kept plain held
        output limit inside stat lists gone accounts older fits success opens reads =
      let key = codes "registry" ++ req.path in
      let raw = print_entry resp.content_type body in
      let entry : CachedEntry = record { content_type = resp.content_type; body = body } in
      let first = round_trip_miss run req s resp w body cached absent below status kept held in
      let after = store_cached base run key resp.content_type body (record s { world = w }) in
      let stored =
        store_cached_written run key resp.content_type body (record s { world = w }) output in
      let opened =
        open_value-write_after run.writing again.opening run.wrote again.opened s.cache key raw
          s.disk
          (open_value-write run.writing again.opening run.wrote again.opened room s.cache key raw
            s.disk limit inside stat lists gone accounts older fits success opens) in
      let found : (load_cached base again key after).0 ≡ some entry =
        rw stored (load_cached_present again key resp.content_type body _ plain reads opened) in
      let second = round_trip_hit again req after entry cached found in
      let both : round_trip base again req (round_trip base run req s).1
          ≡ (ok (to_response entry), (load_cached base again key after).1) =
        ap (λ r. round_trip base again req r.1) first ∙ second in
      (
        ap (λ r. r.0) both,
        ap (λ r. r.1.world) both ∙ load_cached_world again key after ∙ ap (λ r. r.world) stored,
      )
