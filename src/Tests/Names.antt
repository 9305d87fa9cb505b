-- ===== src/Tests/Names.antt =====
-- Hosts, YouTube addresses, targets and alias chains at concrete inputs.
use ajar_family.Prelude.{
  ◌≡◌, refl, ◌≤◌, [], ◌∷◌, true, false, none, some, ◌↔◌, ◌&&◌, ◌||◌, Memᴰ, length,
}
use ajar_family.Text.{
  Text, codes, same, includes, ends_with, lower, to_lower, split, join, push_head, all_chars,
  starts_with, some_char, is_space, trim, trim_start, trim_end, nonempty, last_text, all_texts,
}
use ajar_family.Host.{drop_root_dot, strip_www, normalize_host, host_candidates}
use ajar_family.Host.Candidates.{has_dot, host_candidates_iff}
use ajar_family.Safety.{is_safety_floor_host, safety_floor_domains}
use ajar_family.Safety.Floor.{LiesUnder, is_safety_floor_host_iff}
use ajar_family.YouTube.{normalize_youtube}
use ajar_family.YouTube.Canonical.{IsCanonical, normalize_youtube-IsCanonical}
use ajar_family.Policy.Model.{TargetType}
use ajar_family.Targets.{
  child_request_target_error, is_valid_child_request_target, is_requestable, has_shape,
  is_plausible_host, tld_re, label_re, last_is_alnum, is_forbidden, is_http_url, app_id_re,
  TargetError,
}
use ajar_family.Targets.Shapes.{askable_domain}
use ajar_family.Targets.Specific.{IsSpecific, request_target-IsSpecific}
use ajar_family.Cname.{Resolver, follow_cname_chain, follow, depth_of, normalize_dns_name}
use ajar_family.Cname.Chain.{Fresh, follow_cname_chain_bounded}
use ajar_family.Samples.{Address, sample_web, read_address}

host_candidates_iff_example :
    includes (host_candidates (codes "WWW.Mail.Example.com.")) (codes "example.com") ≡ (
      has_dot (codes "example.com")
      && (same (normalize_host (codes "WWW.Mail.Example.com.")) (codes "example.com")
          || ends_with
              (normalize_host (codes "WWW.Mail.Example.com."))
              (b'.' ∷ codes "example.com")))
host_candidates_iff_example =
    host_candidates_iff (codes "WWW.Mail.Example.com.") (codes "example.com")

normalize_host_test : normalize_host (codes "WWW.Mail.Example.com.") ≡ codes "mail.example.com"
unfolding normalize_host drop_root_dot strip_www to_lower lower starts_with
normalize_host_test = refl

is_safety_floor_host_iff_example : (is_safety_floor_host (codes "chat.988lifeline.org") ≡ true) ↔ (
    (d : Text) × Memᴰ d safety_floor_domains
    × LiesUnder (normalize_host (codes "chat.988lifeline.org")) d)
is_safety_floor_host_iff_example = is_safety_floor_host_iff (codes "chat.988lifeline.org")

-- An address with its query, as the URL class of the samples reads it.
abbrev watch_address : Address
watch_address = record {
  scheme = codes "https:";
  host = codes "www.youtube.com";
  path = codes "/watch";
  query = codes "v=dQw4w9WgXcQ" ∷ codes "t=4" ∷ [];
}

read_address_test :
    read_address (codes "https://www.youtube.com/watch?v=dQw4w9WgXcQ&t=4") ≡ some watch_address
unfolding read_address split push_head join
read_address_test = refl

normalize_youtube-IsCanonical_example :
    IsCanonical
      (normalize_youtube sample_web (codes "https://www.youtube.com/watch?v=dQw4w9WgXcQ&t=4"))
normalize_youtube-IsCanonical_example =
    normalize_youtube-IsCanonical sample_web
      (codes "https://www.youtube.com/watch?v=dQw4w9WgXcQ&t=4")

domain_passes :
    child_request_target_error sample_web TargetType.domain (codes "khanacademy.org") ≡ none
unfolding child_request_target_error is_valid_child_request_target is_requestable trim trim_start
    trim_end is_space same has_shape is_plausible_host some_char split push_head last_text tld_re
    label_re all_texts all_chars last_is_alnum
domain_passes = refl

askable_domain_example :
    (has_dot (codes "khanacademy.org") ≡ true)
    × (some_char is_forbidden (codes "khanacademy.org") ≡ false)
    × (length (codes "khanacademy.org") ≤ 253)
askable_domain_example = askable_domain sample_web (codes "khanacademy.org") domain_passes

page_passes :
    child_request_target_error sample_web TargetType.url (codes "https://khanacademy.org/math")
    ≡ none
unfolding child_request_target_error is_valid_child_request_target is_requestable trim trim_start
    trim_end is_space same has_shape is_http_url read_address split push_head join
page_passes = refl

request_target-IsSpecific_example :
    IsSpecific sample_web (codes "https://khanacademy.org/math") TargetType.url
request_target-IsSpecific_example =
    request_target-IsSpecific sample_web (codes "https://khanacademy.org/math") TargetType.url
      page_passes

wildcard_test :
    child_request_target_error sample_web TargetType.application (codes "com.*")
    ≡ some (TargetError.not_valid TargetType.application)
unfolding child_request_target_error is_valid_child_request_target is_requestable trim trim_start
    trim_end is_space same has_shape app_id_re all_chars
wildcard_test = refl

-- Two names that are aliases of one another.
abbrev circular : Resolver
circular name = elim (same name (codes "a.com")) [
  | true ↦ some (codes "B.com.")
  | false ↦ some (codes "a.com")
]

follow_cname_chain_test : follow_cname_chain (codes "a.com") circular none ≡ codes "b.com" ∷ []
unfolding follow_cname_chain follow normalize_host drop_root_dot strip_www to_lower lower
    starts_with includes same
follow_cname_chain_test = refl

follow_cname_chain_bounded_example :
    (length (follow_cname_chain (codes "a.com") circular none) ≤ depth_of none)
    × Fresh
        (normalize_dns_name (codes "a.com") ∷ [])
        (follow_cname_chain (codes "a.com") circular none)
    × ((t : Text) → Memᴰ t (follow_cname_chain (codes "a.com") circular none) → nonempty t ≡ true)
follow_cname_chain_bounded_example = follow_cname_chain_bounded (codes "a.com") circular none
