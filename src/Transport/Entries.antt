-- ===== src/Transport/Entries.antt =====
-- internal/oci/transport.go: entries as they stand on disk.
use ocifuse.Prelude.{
  suc, ◌+◌, ◌≡◌, refl, ap, ◌∙◌, some, [], ◌∷◌, ◌++◌, Bytes, nat_eq, length, take, drop, take-length,
  arith,
}
use ocifuse.Strings.{has_prefix, index}
use ocifuse.Strings.Laws.{Lacks}
use ocifuse.Transport.{blank_line, parse_entry, print_entry}

index-blank_line :
    (ct body : Bytes) → Lacks 10 ct → index (ct ++ 10 ∷ 10 ∷ body) blank_line ≡ some (length ct)
unfolding index has_prefix
index-blank_line [] body h = refl
index-blank_line (x ∷ ct) body h = rw (h.0, index-blank_line ct body h.1) refl

drop-blank_line : (ct body : Bytes) → drop (length ct + 2) (ct ++ 10 ∷ 10 ∷ body) ≡ body
drop-blank_line [] body = refl
drop-blank_line (x ∷ ct) body =
    let e : suc (length ct) + 2 ≡ suc (length ct + 2) = omega arith in
    ap (λ n. drop n (x ∷ (ct ++ 10 ∷ 10 ∷ body))) e ∙ drop-blank_line ct body

-- An entry whose content type has no line feed is read back as it was written, whatever blank
-- lines its body has.
pub parse_entry-print_entry :
    (ct body : Bytes)
    → Lacks 10 ct
    → parse_entry (print_entry ct body) ≡ some (record { content_type = ct; body = body })
unfolding parse_entry
parse_entry-print_entry ct body h =
    let raw = ct ++ 10 ∷ 10 ∷ body in
    let found : parse_entry raw
        ≡ some (record { content_type = take (length ct) raw; body = drop (length ct + 2) raw }) =
      rw (index-blank_line ct body h, parse_entry) refl in
    found ∙ rw (take-length ct (10 ∷ 10 ∷ body), drop-blank_line ct body) refl
