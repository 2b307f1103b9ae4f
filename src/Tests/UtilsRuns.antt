-- ===== src/Tests/UtilsRuns.antt =====
-- tlgsutils/utils.cpp; see tlgsutils/tests/utils_test.cpp.
use tlgs.Common.{◌≡◌, refl, true, [], ◌∷◌, Bytes, codes, before, from, some, contains, starts_with}
use tlgs.Common.Decimal.{pos, split_sign, value_from, scan_number}
use tlgs.Tests.UrlRuns.{page, run, page-IsNormal}
use tlgs.Url.{Url}
use tlgs.Url.Normal.{IsNormal}
use tlgs.Utils.{
  is_ascii_art, url_encode, is_non_uri_action, try_strtoull, ull_max, link_compose,
  pg_sql_real_escape,
}
use tlgs.Utils.Encode.{url_decode, url_decode-url_encode}
use tlgs.Utils.Escape.{replace_byte, escape_each, pg_sql_real_escape_lem}
use tlgs.Utils.LinkCompose.{SameSite, link_compose-IsNormal}

encoded : url_encode (codes "a b/c~") ≡ codes "a+b%2Fc~"
unfolding url_encode
encoded = refl

dashes : is_ascii_art (codes "a ---- b") ≡ true
unfolding is_ascii_art
dashes = refl

mail : is_non_uri_action (codes "mailto:me@a.b") ≡ true
unfolding is_non_uri_action contains starts_with before from
mail = refl

-- A minus sign is taken modulo 2^64.
negative_page : try_strtoull (codes "-1") ≡ some ull_max
unfolding try_strtoull scan_number split_sign value_from before from
negative_page = refl

url_decode-url_encode_example : url_decode (url_encode (codes "a b/%+")) ≡ codes "a b/%+"
url_decode-url_encode_example = url_decode-url_encode (codes "a b/%+") refl

-- A `replaceAll` that replaces one byte, and leaves other searches alone.
abbrev replace_one : Bytes → Bytes → Bytes → Bytes
replace_one s [] t = s
replace_one s (c ∷ []) t = replace_byte c t s
replace_one s (c ∷ d ∷ r) t = s

abbrev link : Bytes
link = codes "../x.gmi?a"

link_compose-IsNormal_example :
    (v : Url) × (link_compose (pos 0) (run page) link ≡ some v) × IsNormal v × SameSite (run page) v
link_compose-IsNormal_example =
    link_compose-IsNormal (pos 0) (run page) link page-IsNormal (λ h. cc)

pg_sql_real_escape_lem_example :
    pg_sql_real_escape replace_one (codes "it's \\n") ≡ escape_each (codes "it's \\n")
pg_sql_real_escape_lem_example =
    pg_sql_real_escape_lem replace_one (λ s c t. refl) (codes "it's \\n")
