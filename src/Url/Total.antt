-- ===== src/Url/Total.antt =====
-- Every URL with a separator has parts, so `Parse` answers every text.
use grpc_over_ayame.Base.{
  ℕ, ◌≡◌, ◌≢◌, ◌↔◌, ◌⊎◌, inl, inr, refl, sym, ap, ◌∙◌, true, false, none, some, [], ◌∷◌, ◌++◌,
  append_assoc, append-nil, Bytes, length, length-append, Option-cases, arith,
}
use mathlib.Core.Path.{subst}
use grpc_over_ayame.Url.{UrlParts, separator, find_text, parse}
use grpc_over_ayame.Url.Search.{Lacks, split_cases, find_text-split, find_text-le}
use grpc_over_ayame.Url.Shape.{
  LacksSeparator, IsUserPart, IsPortPart, IsPath, Decomposes, Lacks-left, Lacks-right,
}
use grpc_over_ayame.Url.Inverse.{parse-of_Decomposes}

-- The first separator found leaves none in the scheme.
find_text-first :
    (pre post : Bytes)
    → find_text separator ((pre ++ separator) ++ post) ≡ some (length pre)
    → LacksSeparator pre
find_text-first pre post found a b e =
    let (m, earlier, at) = find_text-le separator a (b ++ (separator ++ post)) in
    let regroup : (pre ++ separator) ++ post ≡ (a ++ separator) ++ (b ++ (separator ++ post)) = rw (
      e,
      append_assoc ((a ++ separator) ++ b) separator post,
      append_assoc (a ++ separator) b (separator ++ post),
    ) in
    let here = rw regroup at found in
    ground (arith, ap length e, length-append (a ++ separator) b, length-append a separator)

record Authority (text : Bytes) : Type 0 where
  user : Bytes
  user_part : Bytes
  host : Bytes
  port : Bytes
  port_part : Bytes
  whole : text ≡ user_part ++ (host ++ port_part)
  user_is : IsUserPart user user_part
  port_is : IsPortPart port port_part
  user_lacks : Lacks b'@' user
  host_lacks : Lacks b':' host
  no_user : user_part ≡ [] → Lacks b'@' (host ++ port_part)

record HostPort (text : Bytes) : Type 0 where
  host : Bytes
  port : Bytes
  port_part : Bytes
  whole : text ≡ host ++ port_part
  port_is : IsPortPart port port_part
  host_lacks : Lacks b':' host

host_port : (text : Bytes) → HostPort text
host_port text = elim (split_cases b':' text) [
  | inl h ↦ record {
    host = text;
    port = [];
    port_part = [];
    whole = sym (append-nil text);
    port_is = inl (refl, refl);
    host_lacks = h;
  }
  | inr (pre, post, e, h) ↦ record {
    host = pre;
    port = post;
    port_part = b':' ∷ post;
    whole = e;
    port_is = inr refl;
    host_lacks = h;
  }
]

authority : (text : Bytes) → Authority text
authority text = elim (split_cases b'@' text) [
  | inl h ↦
      let hp = host_port text in
      record {
        user = [];
        user_part = [];
        host = hp.host;
        port = hp.port;
        port_part = hp.port_part;
        whole = hp.whole;
        user_is = inl (refl, refl);
        port_is = hp.port_is;
        user_lacks = tt;
        host_lacks = hp.host_lacks;
        no_user = λ _. subst (Lacks b'@') hp.whole h;
      }
  | inr (pre, post, e, h) ↦
      let hp = host_port post in
      record {
        user = pre;
        user_part = pre ++ b'@' ∷ [];
        host = hp.host;
        port = hp.port;
        port_part = hp.port_part;
        whole =
            e ∙ (sym (append_assoc pre (b'@' ∷ []) post) ∙ ap (◌++◌ (pre ++ b'@' ∷ [])) hp.whole);
        user_is = inr refl;
        port_is = hp.port_is;
        user_lacks = h;
        host_lacks = hp.host_lacks;
        no_user = λ e'. absurd (concat-ne-nil_at pre e');
      }
]
  where
    concat-ne-nil_at : (pre : Bytes) → pre ++ b'@' ∷ [] ≢ []
    concat-ne-nil_at [] e' = cc
    concat-ne-nil_at (x ∷ pre) e' = cc

port-Lacks : (port written : Bytes) → IsPortPart port written → Lacks b'/' written → Lacks b'/' port
port-Lacks port written (inl (e, w)) h = rw e tt
port-Lacks port written (inr w) h = (rw w at h).1

user-Lacks : (user written : Bytes) → IsUserPart user written → Lacks b'/' written → Lacks b'/' user
user-Lacks user written (inl (e, w)) h = rw e tt
user-Lacks user written (inr w) h = Lacks-left b'/' user (b'@' ∷ []) (rw w at h)

decompose :
    (url scheme text path : Bytes)
    → url ≡ (scheme ++ separator) ++ (text ++ path)
    → LacksSeparator scheme
    → Lacks b'/' text
    → IsPath path
    → (p : UrlParts) × Decomposes url p
decompose url scheme text path e s h is_path =
    let a = authority text in
    let h' : Lacks b'/' (a.user_part ++ (a.host ++ a.port_part)) = subst (Lacks b'/') a.whole h in
    let tail = Lacks-right b'/' a.user_part (a.host ++ a.port_part) h' in
    (
      record {
        scheme = scheme;
        user_pass = a.user;
        host = a.host;
        port = a.port;
        path_query_fragment = path;
      },
      record {
        user_part = a.user_part;
        port_part = a.port_part;
        whole = e ∙ ap (λ t. (scheme ++ separator) ++ (t ++ path)) a.whole;
        user_is = a.user_is;
        port_is = a.port_is;
        path_is = is_path;
        scheme_lacks = s;
        user_lacks =
            (user-Lacks a.user a.user_part a.user_is (Lacks-left b'/' _ _ h'), a.user_lacks);
        host_lacks = (Lacks-left b'/' a.host a.port_part tail, a.host_lacks);
        port_lacks =
            port-Lacks a.port a.port_part a.port_is (Lacks-right b'/' a.host a.port_part tail);
        no_user = a.no_user;
      },
    )

found-Decomposes :
    (url : Bytes) (n : ℕ) → find_text separator url ≡ some n → (p : UrlParts) × Decomposes url p
found-Decomposes url n found =
    let (scheme, post, e, at) = find_text-split separator url n found in
    let lacks : LacksSeparator scheme = find_text-first scheme post (rw (e, at) at found) in
    elim (split_cases b'/' post) [
      | inl h ↦
          decompose url scheme post [] (e ∙ ap (◌++◌ (scheme ++ separator)) (sym (append-nil post)))
            lacks h (inl refl)
      | inr (text, rest, e', h) ↦
          decompose url scheme text (b'/' ∷ rest) (e ∙ ap (◌++◌ (scheme ++ separator)) e') lacks h
            (inr (rest, refl))
    ]

parse_missing :
    (url : Bytes) (old : UrlParts)
    → find_text separator url ≡ none
    → parse url old ≡ some (false, old)
unfolding parse
parse_missing url old e = rw (e, parse)

missing-LacksSeparator : (url : Bytes) → find_text separator url ≡ none → LacksSeparator url
missing-LacksSeparator url e a b whole =
    let (n, found, at) = find_text-le separator a b in ground (arith, rw whole at e)

-- `Parse` never throws. It returns false, with the parts untouched, exactly on the texts that hold
-- no "://"; every other text has parts, which it returns.
pub parse_total :
    (url : Bytes) (old : UrlParts)
    → ((parse url old ≡ some (false, old)) × LacksSeparator url)
      ⊎ ((p : UrlParts) × (parse url old ≡ some (true, p)) × Decomposes url p)
parse_total url old = elim (Option-cases (find_text separator url)) [
  | inl e ↦ inl (parse_missing url old e, missing-LacksSeparator url e)
  | inr (n, found) ↦
      let (p, d) = found-Decomposes url n found in inr (p, parse-of_Decomposes url old p d, d)
]

-- `Parse` returns true with the parts `p` exactly if the URL is composed of `p`, each delimiter the
-- first of its kind; so the parts are unique.
pub parse-Decomposes :
    (url : Bytes) (old p : UrlParts) → (parse url old ≡ some (true, p)) ↔ Decomposes url p
parse-Decomposes url old p = (read (parse_total url old), parse-of_Decomposes url old p)
  where
    read :
        ((parse url old ≡ some (false, old)) × LacksSeparator url)
          ⊎ ((q : UrlParts) × (parse url old ≡ some (true, q)) × Decomposes url q)
        → parse url old ≡ some (true, p)
        → Decomposes url p
    read (inl (e, _)) h = absurd (ground (arith, e))
    read (inr (q, e, d)) h = let same : q ≡ p = cc in subst (Decomposes url) same d
