-- ===== src/Auth/ClientIp.antt =====
-- internal/middleware/auth.go: the address of the client behind trusted proxies.
use article_sentinel.Base.{
  Bool, false, ◌||◌, not, Option, none, some, List, [], ◌∷◌, ◌++◌, ◌==◌, if◌then◌else◌, length,
  take, drop, ◌-◌,
}
use article_sentinel.Text.{Text, codes, is_empty, trim_space}
use article_sentinel.Text.Find.{has_prefix}
use mathlib.Core.List.{reverse}

-- The package net: addresses, networks, their reading and printing.
pub record Net (Ip Network : Type 0) : Type 0 where
  pub parse_ip : Text → Option Ip
  pub print_ip : Ip → Text
  pub split_host_port : Text → Option Text
  pub parse_cidr : Text → Option Network
  pub contains : Network → Ip → Bool

-- What a request says of where it comes from; a header that is absent is empty.
pub record Request : Type 0 where
  pub remote_addr : Text
  pub forwarded_for : List Text
  pub real_ip : Text

-- `strings.Split(s, ",")`
unfoldable pub split_comma : Text → List Text
split_comma [] = [] ∷ []
split_comma (a ∷ s) = elim (split_comma s) [
  | [] ↦ (a ∷ []) ∷ []
  | ◌∷◌ part parts ↦ if a == 0x2c then [] ∷ part ∷ parts else (a ∷ part) ∷ parts
]

-- `strings.TrimPrefix(s, "[")` and `strings.TrimSuffix(s, "]")`
unfoldable pub trim_brackets : Text → Text
trim_brackets s =
    let t = if has_prefix s (codes "[") then drop 1 s else s in
    if has_prefix (reverse t) (codes "]") then take (length t - 1) t else t

module _ {Ip Network : Type 0} (net : Net Ip Network) where
  unfoldable pub parse_trusted_proxy_cidrs : List Text → List Network
  parse_trusted_proxy_cidrs [] = []
  parse_trusted_proxy_cidrs (cidr ∷ cidrs) =
      let rest = parse_trusted_proxy_cidrs cidrs in
      let trimmed = trim_space cidr in
      if is_empty trimmed
      then rest
      else elim (net.parse_cidr trimmed) [ none ↦ rest | some network ↦ network ∷ rest ]

  unfoldable pub is_trusted_proxy : Ip → List Network → Bool
  is_trusted_proxy ip [] = false
  is_trusted_proxy ip (network ∷ networks) = net.contains network ip || is_trusted_proxy ip networks

  unfoldable pub parse_ip_candidate : Text → Option Ip
  unfolding trim_brackets
  parse_ip_candidate value =
      let trimmed = trim_space value in
      let host : Text = elim (net.split_host_port trimmed) [ none ↦ trimmed | some h ↦ h ] in
      let bare = trim_brackets host in
      if is_empty trimmed then none else if is_empty bare then none else net.parse_ip bare

  unfoldable pub part_candidates : List Text → List Ip
  unfolding parse_ip_candidate
  part_candidates [] = []
  part_candidates (part ∷ parts) =
      let rest = part_candidates parts in
      elim (parse_ip_candidate part) [ none ↦ rest | some ip ↦ ip ∷ rest ]

  unfoldable pub candidates : List Text → List Ip
  unfolding part_candidates split_comma
  candidates [] = []
  candidates (value ∷ values) = part_candidates (split_comma value) ++ candidates values

  -- The loop from the last candidate to the first.
  unfoldable pub last_untrusted : List Ip → List Network → Option Ip
  unfolding is_trusted_proxy
  last_untrusted [] networks = none
  last_untrusted (ip ∷ ips) networks = elim (last_untrusted ips networks) [
    | some found ↦ some found
    | none ↦ if is_trusted_proxy ip networks then none else some ip
  ]

  unfoldable pub forwarded_client_ip_from_headers : List Text → List Network → Option Ip
  unfolding candidates last_untrusted
  forwarded_client_ip_from_headers values networks = last_untrusted (candidates values) networks

  unfoldable pub remote_ip_from_request : Text → Option Ip × Text
  remote_ip_from_request remote_addr =
      let trimmed = trim_space remote_addr in
      if is_empty trimmed then (none, []) else elim (net.split_host_port trimmed) [
        | some host ↦ elim (net.parse_ip host) [
          | some ip ↦ (some ip, net.print_ip ip)
          | none ↦ (none, host)
        ]
        | none ↦ elim (net.parse_ip trimmed) [
          | some ip ↦ (some ip, net.print_ip ip)
          | none ↦ (none, trimmed)
        ]
      ]

  -- The remote address, or what a trusted proxy says.
  unfoldable pub client_ip_of : Option Ip × Text → Request → List Network → Text
  unfolding is_trusted_proxy forwarded_client_ip_from_headers parse_ip_candidate
  client_ip_of (none, remote_text) r networks = remote_text
  client_ip_of (some ip, remote_text) r networks =
      if is_empty remote_text
      then []
      else if not (is_trusted_proxy ip networks)
      then remote_text
      else elim (forwarded_client_ip_from_headers r.forwarded_for networks) [
        | some forwarded ↦ net.print_ip forwarded
        | none ↦ elim (parse_ip_candidate r.real_ip) [
          | some real ↦ net.print_ip real
          | none ↦ remote_text
        ]
      ]

  unfoldable pub client_ip_from_request : Request → List Network → Text
  unfolding remote_ip_from_request client_ip_of
  client_ip_from_request r networks = client_ip_of (remote_ip_from_request r.remote_addr) r networks
