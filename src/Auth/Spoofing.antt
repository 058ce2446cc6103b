-- ===== src/Auth/Spoofing.antt =====
-- Whose word the address of the client is.
use article_sentinel.Base.{
  true, false, ◌≡◌, ◌⊎◌, refl, ap, ◌∙◌, inl, inr, Option, none, some, List, [], ◌∷◌, ◌++◌, All,
  Bool-cases,
}
use article_sentinel.Text.{Text}
use article_sentinel.Auth.ClientIp.{
  Net, Request, is_trusted_proxy, candidates, last_untrusted, forwarded_client_ip_from_headers,
  remote_ip_from_request, client_ip_of, client_ip_from_request,
}

module _ {Ip Network : Type 0} (net : Net Ip Network) (networks : List Network) where
  client_ip_of-untrusted :
      (p : Option Ip × Text) (r r' : Request)
      → (p.0 ≡ none) ⊎ ((ip : Ip) × (p.0 ≡ some ip) × (is_trusted_proxy net ip networks ≡ false))
      → client_ip_of net p r networks ≡ client_ip_of net p r' networks
  unfolding client_ip_of
  client_ip_of-untrusted (none, remote) r r' h = refl
  client_ip_of-untrusted (some ip, remote) r r' (inl e) = absurd cc
  client_ip_of-untrusted (some ip, remote) r r' (inr (ip', e, untrusted)) =
      let same : ip' ≡ ip = cc in
      let u : is_trusted_proxy net ip networks ≡ false = rw (← same) untrusted in rw u refl

  -- If the address from which a request comes is not that of a trusted proxy, or is no address,
  -- the headers do not matter for the address of the client.
  pub client_ip-untrusted :
      (r r' : Request)
      → r.remote_addr ≡ r'.remote_addr
      → ((remote_ip_from_request net r.remote_addr).0 ≡ none)
        ⊎ ((ip : Ip) × ((remote_ip_from_request net r.remote_addr).0 ≡ some ip)
            × (is_trusted_proxy net ip networks ≡ false))
      → client_ip_from_request net r networks ≡ client_ip_from_request net r' networks
  unfolding client_ip_from_request
  client_ip-untrusted r r' same h =
      client_ip_of-untrusted (remote_ip_from_request net r.remote_addr) r r' h
      ∙ ap (λ a. client_ip_of net (remote_ip_from_request net a) r' networks) same

  last_untrusted-last :
      (ips : List Ip)
      → ((last_untrusted net ips networks ≡ none)
          × All (λ ip. is_trusted_proxy net ip networks ≡ true) ips)
        ⊎ ((before after : List Ip) × (ip : Ip) × (last_untrusted net ips networks ≡ some ip)
            × (ips ≡ before ++ ip ∷ after)
            × (is_trusted_proxy net ip networks ≡ false)
            × All (λ p. is_trusted_proxy net p networks ≡ true) after)
  unfolding last_untrusted
  last_untrusted-last [] = inl (refl, tt)
  last_untrusted-last (ip ∷ ips) = elim (last_untrusted-last ips) [
    | inl (e, all) ↦ elim (Bool-cases (is_trusted_proxy net ip networks)) [
      | inl t ↦ inl (rw (e, t) refl, (t, all))
      | inr t ↦ inr ([], ips, ip, rw (e, t) refl, refl, t, all)
    ]
    | inr (before, after, found, e, split, t, all) ↦
        inr (ip ∷ before, after, found, rw e refl, ap (λ xs. ip ∷ xs) split, t, all)
  ]

  -- Of the addresses in the header, the one chosen is the last that is not a trusted proxy: all
  -- after it are trusted; none is chosen only if all are trusted.
  pub forwarded_client_ip-last :
      (values : List Text)
      → ((forwarded_client_ip_from_headers net values networks ≡ none)
          × All (λ ip. is_trusted_proxy net ip networks ≡ true) (candidates net values))
        ⊎ ((before after : List Ip) × (ip : Ip) × (forwarded_client_ip_from_headers net values
                networks
              ≡ some ip)
            × (candidates net values ≡ before ++ ip ∷ after)
            × (is_trusted_proxy net ip networks ≡ false)
            × All (λ p. is_trusted_proxy net p networks ≡ true) after)
  unfolding forwarded_client_ip_from_headers
  forwarded_client_ip-last values = last_untrusted-last (candidates net values)
