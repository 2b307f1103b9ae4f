-- ===== src/Url/Normal.antt =====
-- The shape of the URLs that the constructor of tlgsutils/url_parser.cpp makes and finds good.
use tlgs.Common.{ℕ, ◌≡◌, Bool, true, false, not, [], leb, if◌then◌else◌, Bytes, all, isalnum, lower}
use tlgs.Common.Decimal.{ℤ, pos, negsuc}
use tlgs.FilePath.{lexically_normal, is_absolute}
use tlgs.Url.{Url, shows_port}
use tlgs.Url.Parse.{is_colon_slash, is_query_hash, is_hash, bad_host}

abbrev pub none_of : (ℕ → Bool) → Bytes → Bool
none_of p = all (λ c. not (p c))

abbrev pub is_port : ℤ → Bool
is_port (pos n) = leb n 65535
is_port (negsuc n) = false

-- The shape of a URL that was parsed, found good and normalised.
pub record IsNormal (u : Url) : Type 0 where
  pub protocol_alnum : all isalnum u.protocol ≡ true
  pub protocol_lower : lower u.protocol ≡ u.protocol
  pub host_first : bad_host u.host ≡ false
  pub host_bytes : none_of is_colon_slash u.host ≡ true
  pub host_lower : lower u.host ≡ u.host
  pub port_range : is_port u.port ≡ true
  pub path_rooted : is_absolute u.path ≡ true
  pub path_bytes : none_of is_query_hash u.path ≡ true
  pub path_normal : lexically_normal u.path ≡ u.path
  pub param_bytes : none_of is_hash u.param ≡ true
  pub no_cache : u.cache ≡ []
  pub is_good : u.good ≡ true

-- The port that `str` shows; 0 stands for none.
abbrev pub shown_port : Url → ℤ
shown_port u = if shows_port u then u.port else pos 0
