-- ===== src/Url/Tests.antt =====
-- The URL functions at concrete inputs.
use lightpanda_browser.Prelude.{
  true, false, [], ◌∷◌, ◌++◌, none, some, codes, ◌≡◌, ◌≢◌, ◌⊎◌, refl, arith, All, eq_bytes,
  eq_bytes_iff, is_empty,
}
use lightpanda_browser.Prelude.Decimal.{decimal, parse_u16, parse_digits, push_digit}
use lightpanda_browser.Prelude.Search.{find}
use lightpanda_browser.Ffi.{pos, slice_of, str_from}
use lightpanda_browser.Url.Example.{SmallUrl, http_url, small}
use lightpanda_browser.Url.DriveLetter.{
  is_drive_letter_lookalike, first_segment, ends_with_lookalike, pop_segment, fix_drive_letter_join,
}
use lightpanda_browser.Url.DriveLetter.Pop.{StartsWithParent, fix_pops, fix_pops_last, fix_changes}
use lightpanda_browser.Url.Hostname.{
  is_special, IsHostByte, without_blanks, host_part, clean_hostname_input, clean_hostname_input_lem,
  clean_hostname_input-IsHostByte, clean_hostname_input_again,
}
use lightpanda_browser.Url.Host.{
  starts_with_bracket, set_host_only, set_host_parts, set_host_text, colon_index, host_input,
  set_host_str, url_set_host,
}
use lightpanda_browser.Url.Host.Laws.{
  SetHostIsAtomic, url_set_host-atomic, set_host_ignores_rest, set_host_empty_port,
  set_host_decimal_port,
}

abbrev base : SmallUrl
base = http_url (codes "/x/C:/")

lookalike : is_drive_letter_lookalike (codes "C:") ≡ true
unfolding is_drive_letter_lookalike
lookalike = refl

not_file : codes "http" ≢ codes "file"
unfolding eq_bytes
not_file = λ e. ground (arith, (eq_bytes_iff (codes "http") (codes "file")).1 e)

-- The join that `../` needs fixed, and one of `../foo/`.
fix_pops_example : fix_drive_letter_join small base (codes "../") base ≡ http_url (codes "/x/")
fix_pops_example =
    fix_pops small base base (codes "../") (codes "/x") (codes "C:") not_file not_file
      (StartsWithParent.followed b'/' [] refl) lookalike refl refl

fix_pops_last_example :
    fix_drive_letter_join small base (codes "../foo/") (http_url (codes "/x/C:/foo/")) ≡ base
fix_pops_last_example =
    fix_pops_last small base (http_url (codes "/x/C:/foo/")) (codes "../foo/") (codes "/x")
      (codes "C:") (codes "foo") not_file not_file
      (StartsWithParent.followed b'/' (codes "foo/") refl) lookalike (refl, (refl, (refl, tt))) refl
      refl

fix_changes_test :
    (fix_drive_letter_join small base (codes "../") base ≡ base)
    ⊎ ((codes "http" ≢ codes "file")
        × (codes "http" ≢ codes "file")
        × (first_segment (codes "../") ≡ codes "..")
        × (ends_with_lookalike (codes "/x/C:/") ≡ true)
        × (fix_drive_letter_join small base (codes "../") base ≡ pop_segment small base))
fix_changes_test = fix_changes small base base (codes "../")

clean_hostname_input_lem_example :
    clean_hostname_input small base (codes "b:80/")
    ≡ without_blanks (host_part (is_special (codes "http")) false (codes "b:80/"))
clean_hostname_input_lem_example = clean_hostname_input_lem small base (codes "b:80/")

clean_hostname_input-IsHostByte_test :
    All (IsHostByte (is_special (codes "http"))) (clean_hostname_input small base (codes "b:80/"))
clean_hostname_input-IsHostByte_test = clean_hostname_input-IsHostByte small base (codes "b:80/")

clean_hostname_input_again_test :
    clean_hostname_input small base (clean_hostname_input small base (codes "[::1]:80"))
    ≡ clean_hostname_input small base (codes "[::1]:80")
clean_hostname_input_again_test = clean_hostname_input_again small base (codes "[::1]:80")

small-SetHostIsAtomic : SetHostIsAtomic small
small-SetHostIsAtomic url none e = refl
small-SetHostIsAtomic url (some []) e = refl
small-SetHostIsAtomic url (some (c ∷ cs)) e = cc

url_set_host-atomic_example : (url_set_host small base (slice_of (codes "b:99999"))).0 ≡ base
unfolding url_set_host set_host_str str_from set_host_text colon_index host_input find is_special
    eq_bytes set_host_parts is_empty parse_u16 parse_digits push_digit
url_set_host-atomic_example =
    url_set_host-atomic small base (slice_of (codes "b:99999")) small-SetHostIsAtomic refl

set_host_ignores_rest_test :
    set_host_str small base (codes "b" ++ (b'/' ∷ codes "c:1"))
    ≡ set_host_str small base (codes "b")
unfolding is_special eq_bytes
set_host_ignores_rest_test =
    set_host_ignores_rest small base (codes "b") b'/' (codes "c:1") (refl, tt) refl

set_host_empty_port_test :
    set_host_str small base (codes "b" ++ (b':' ∷ [])) ≡ set_host_only small base (codes "b")
unfolding is_special eq_bytes starts_with_bracket
set_host_empty_port_test =
    set_host_empty_port small base (codes "b") (refl, (refl, tt)) refl (refl, tt)

set_host_decimal_port_example :
    set_host_str small base (codes "b" ++ (b':' ∷ decimal 80))
    ≡ ((small.set_port (small.set_host base (some (codes "b"))).0 (some 80)).0, pos 0)
unfolding is_special eq_bytes decimal starts_with_bracket
set_host_decimal_port_example =
    set_host_decimal_port small base (codes "b") 80 (refl, (refl, (refl, (refl, tt)))) refl
      (refl, tt)
