-- ===== src/Signaling/Connect/Opening.antt =====
-- What `Connect` starts, and how the connection opens from there.
use grpc_over_ayame.Base.{
  ◌≡◌, refl, sym, ◌↔◌, ◌⊎◌, ap, ◌∙◌, inl, inr, true, false, some, [], ◌∷◌, ◌++◌, Bytes, codes,
  same_iff, arith,
}
use grpc_over_ayame.Url
use grpc_over_ayame.Url.{UrlParts}
use grpc_over_ayame.Url.Shape.{Decomposes, LacksSeparator}
use grpc_over_ayame.Url.Total.{parse_total, parse-Decomposes}
use grpc_over_ayame.Message.{null_dereference}
use grpc_over_ayame.Signaling.{async_resolve, Signaling}
use grpc_over_ayame.Signaling.Connect.{
  ConnectEnv, ConnectResult, returned, faulted, port_or_default, connect_wss, connect,
}

-- The port that is looked up for that of the URL.
abbrev pub looked_up : Bytes → Bytes
looked_up [] = codes "443"
looked_up (c ∷ cs) = c ∷ cs

looked_up-port_or_default : (port : Bytes) → port_or_default port ≡ looked_up port
looked_up-port_or_default [] = refl
looked_up-port_or_default (c ∷ cs) = refl

-- The state behind a `Connect` that returns true.
abbrev pub resolving : Signaling → UrlParts → Signaling
resolving s p = record s {
  parts = p;
  factory = true;
  wss = true;
  calls = s.calls ++ async_resolve p.host (looked_up p.port) ∷ [];
}

connect_parsed :
    (env : ConnectEnv) (url : Bytes) (s : Signaling) (p : UrlParts)
    → Url.parse url s.parts ≡ some (true, p)
    → p.scheme ≡ codes "wss"
    → connect env url s ≡ connect_wss env (record s { parts = p })
unfolding connect
connect_parsed env url s p e w = ground (arith, same_iff p.scheme (codes "wss"))

connect_wss-true :
    (env : ConnectEnv) (s : Signaling)
    → env.factory_created ≡ true
    → env.host_name_set ≡ true
    → connect_wss env s ≡ (resolving s s.parts, returned true)
unfolding connect_wss
connect_wss-true env s f h = ground (arith, looked_up-port_or_default s.parts.port)

connect_wss_needs :
    (env : ConnectEnv) (s : Signaling)
    → (connect_wss env s).1 ≡ returned true
    → (env.factory_created ≡ true) × (env.host_name_set ≡ true)
unfolding connect_wss
connect_wss_needs env s h = ground arith

connect_needs_wss :
    (env : ConnectEnv) (url : Bytes) (s : Signaling) (p : UrlParts)
    → Url.parse url s.parts ≡ some (true, p)
    → (connect env url s).1 ≡ returned true
    → (p.scheme ≡ codes "wss") × ((connect_wss env (record s { parts = p })).1 ≡ returned true)
unfolding connect
connect_needs_wss env url s p e h = ground (arith, same_iff p.scheme (codes "wss"))

connect_unparsed :
    (env : ConnectEnv) (url : Bytes) (s : Signaling)
    → Url.parse url s.parts ≡ some (false, s.parts)
    → (connect env url s).1 ≡ returned false
unfolding connect
connect_unparsed env url s e = ground arith

connect-resolving :
    (env : ConnectEnv) (url : Bytes) (s : Signaling) (p : UrlParts)
    → Decomposes url p
    → p.scheme ≡ codes "wss"
    → env.factory_created ≡ true
    → env.host_name_set ≡ true
    → connect env url s ≡ (resolving s p, returned true)
connect-resolving env url s p d w f n =
    connect_parsed env url s p ((parse-Decomposes url s.parts p).1 d) w
    ∙ connect_wss-true env (record s { parts = p }) f n

-- `Connect` returns true and leaves the state `s'` exactly if the URL has parts of which the scheme
-- is "wss", there is a factory, the TLS host name can be set, and `s'` is the state before with
-- these parts, the factory, the WebSocket and one more call: the lookup of the URL's host, at its
-- port or, if that is empty, at 443.
pub connect-true_iff :
    (env : ConnectEnv) (url : Bytes) (s s' : Signaling)
    → (connect env url s ≡ (s', returned true)) ↔ (
        (p : UrlParts) × Decomposes url p
        × (p.scheme ≡ codes "wss")
        × (env.factory_created ≡ true)
        × (env.host_name_set ≡ true)
        × (s' ≡ resolving s p))
connect-true_iff env url s s' = (
  from (parse_total url s.parts),
  λ (p, d, w, f, n, e).
      connect-resolving env url s p d w f n ∙ ap (λ (t : Signaling). (t, returned true)) (sym e),
)
  where
    from :
        ((Url.parse url s.parts ≡ some (false, s.parts)) × LacksSeparator url)
          ⊎ ((p : UrlParts) × (Url.parse url s.parts ≡ some (true, p)) × Decomposes url p)
        → connect env url s ≡ (s', returned true)
        → (p : UrlParts) × Decomposes url p
          × (p.scheme ≡ codes "wss")
          × (env.factory_created ≡ true)
          × (env.host_name_set ≡ true)
          × (s' ≡ resolving s p)
    from (inl (e, _)) h =
        let back : (connect env url s).1 ≡ returned true =
          ap (λ (r : Signaling × ConnectResult). r.1) h in
        absurd (ground (arith, connect_unparsed env url s e))
    from (inr (p, e, d)) h =
        let back : (connect env url s).1 ≡ returned true =
          ap (λ (r : Signaling × ConnectResult). r.1) h in
        let (w, back') = connect_needs_wss env url s p e back in
        let (f, n) = connect_wss_needs env (record s { parts = p }) back' in
        (
          p,
          d,
          w,
          f,
          n,
          ap (λ (r : Signaling × ConnectResult). r.0)
              (sym h ∙ connect-resolving env url s p d w f n),
        )

-- Where WebRTC gives no factory, a "wss" URL ends in a call through null, before the test of
-- `Connect` that would return false.
pub connect_null_factory :
    (env : ConnectEnv) (url : Bytes) (s : Signaling) (p : UrlParts)
    → Decomposes url p
    → p.scheme ≡ codes "wss"
    → env.factory_created ≡ false
    → (connect env url s).1 ≡ faulted null_dereference
connect_null_factory env url s p d w f =
    rw (connect_parsed env url s p ((parse-Decomposes url s.parts p).1 d) w)
      (unfold connect_wss in ground arith)
