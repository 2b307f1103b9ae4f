-- ===== src/Url/Order.antt =====
-- The comparison operators of tlgsutils/url_parser.hpp, by which `std::set<tlgs::Url>` keeps the
-- links of a page.
use tlgs.Common.{◌≡◌, true, false, Bytes, [], ◌⊎◌, ◌↔◌}
use tlgs.Common.Decimal.{ℤ}
use tlgs.Common.Order.{
  trichotomy, guarded-StrictOrder, StrictOrder, pair-StrictOrder, bytes-StrictOrder,
  int-StrictOrder,
}
use tlgs.Url.{Url, url_eq, url_lt}

-- What the operators compare: neither `good_`, `default_port_` nor the cache.
abbrev pub Key : Type 0
Key = Bytes × (Bytes × (Bytes × (Bytes × (Bytes × ℤ))))

abbrev pub key : Url → Key
key u = (u.protocol, (u.host, (u.path, (u.param, (u.fragment, u.port)))))

abbrev of_key : Key → Url
of_key (protocol, (host, (path, (param, (fragment, port))))) = record {
  protocol = protocol;
  host = host;
  port = port;
  path = path;
  param = param;
  fragment = fragment;
  good = true;
  default_port = port;
  cache = [];
}

url-StrictOrder :
    StrictOrder Key (λ a b. url_eq (of_key a) (of_key b)) (λ a b. url_lt (of_key a) (of_key b))
unfolding url_eq url_lt
url-StrictOrder = pair-StrictOrder bytes-StrictOrder (
    pair-StrictOrder bytes-StrictOrder (
      pair-StrictOrder bytes-StrictOrder (
        pair-StrictOrder bytes-StrictOrder
          (pair-StrictOrder bytes-StrictOrder (guarded-StrictOrder int-StrictOrder)))))

-- Equality agrees with the order: of two URLs exactly one is below the other, unless operator==
-- holds, and then neither is.
pub url_lt_trichotomy :
    (a b : Url)
    → ((url_lt a b ≡ true) × (url_lt b a ≡ false) × (url_eq a b ≡ false))
      ⊎ ((url_lt a b ≡ false) × (url_lt b a ≡ true) × (url_eq a b ≡ false))
      ⊎ ((url_lt a b ≡ false) × (url_lt b a ≡ false) × (url_eq a b ≡ true))
unfolding url_lt url_eq
url_lt_trichotomy a b = trichotomy url-StrictOrder (key a) (key b)

-- operator< is transitive.
pub url_lt_trans : (a b c : Url) → url_lt a b ≡ true → url_lt b c ≡ true → url_lt a c ≡ true
unfolding url_lt
url_lt_trans a b c h k = url-StrictOrder.trans (key a) (key b) (key c) h k

-- operator== compares the keys.
pub url_eq_iff : (a b : Url) → (url_eq a b ≡ true) ↔ (key a ≡ key b)
unfolding url_eq
url_eq_iff a b = url-StrictOrder.eq_iff (key a) (key b)
