-- ===== src/Server/Security/Acl.antt =====
-- Whom the access lists let in.
use simple_ntpd.Common.{
  ℕ, ◌≡◌, ◌↔◌, ◌⊎◌, inl, inr, refl, arith, Bool, true, false, Option, List, [], ◌∷◌, All,
  if◌then◌else◌, is_empty_iff,
}
use simple_ntpd.Common.Text.{Bytes}
use simple_ntpd.Common.Result.{Result, ok, exception, ◌>>=◌}
use simple_ntpd.Config.{NtpConfig}
use simple_ntpd.Net.{is_ip_in_cidr}
use simple_ntpd.Server.Security.{any_match, is_client_allowed}

module _ (inet_pton : Bytes → Option ℕ) (ip : Bytes) where
  abbrev pub Outside : Bytes → Type 0
  Outside block = is_ip_in_cidr inet_pton ip block ≡ ok false

  -- A block of the list holds the address, and those before it can be read and do not.
  abbrev pub Listed : List Bytes → Type 0
  Listed [] = ⊥
  Listed (block ∷ blocks) =
      (is_ip_in_cidr inet_pton ip block ≡ ok true) ⊎ (Outside block × Listed blocks)

  any_match-Listed :
      (blocks : List Bytes) → (any_match inet_pton ip blocks ≡ ok true) ↔ Listed blocks
  unfolding any_match
  any_match-Listed [] = ((λ e. cc), (λ l. absurd l))
  any_match-Listed (block ∷ blocks) =
      let ih = any_match-Listed blocks in head (is_ip_in_cidr inet_pton ip block) ih
    where
      head :
          (r : Result Bool)
          → (any_match inet_pton ip blocks ≡ ok true) ↔ Listed blocks
          → ((r >>= λ hit. if hit then ok true else any_match inet_pton ip blocks) ≡ ok true)
            ↔ ((r ≡ ok true) ⊎ ((r ≡ ok false) × Listed blocks))
      head (ok true) ih = ((λ e. inl refl), (λ l. refl))
      head (ok false) ih =
          ((λ e. inr (refl, ih.0 e)), (λ l. elim l [ inl e ↦ cc | inr (e, m) ↦ ih.1 m ]))
      head exception ih = ((λ e. cc), (λ l. elim l [ inl e ↦ cc | inr (e, m) ↦ cc ]))

  any_match-Outside :
      (blocks : List Bytes) → (any_match inet_pton ip blocks ≡ ok false) ↔ All Outside blocks
  unfolding any_match
  any_match-Outside [] = ((λ e. tt), (λ l. refl))
  any_match-Outside (block ∷ blocks) =
      head (is_ip_in_cidr inet_pton ip block) (any_match-Outside blocks)
    where
      head :
          (r : Result Bool)
          → (any_match inet_pton ip blocks ≡ ok false) ↔ All Outside blocks
          → ((r >>= λ hit. if hit then ok true else any_match inet_pton ip blocks) ≡ ok false)
            ↔ ((r ≡ ok false) × All Outside blocks)
      head (ok true) ih = ((λ e. cc), (λ l. cc (l.0)))
      head (ok false) ih = ((λ e. (refl, ih.0 e)), (λ l. ih.1 l.1))
      head exception ih = ((λ e. cc), (λ l. cc (l.0)))

  -- The rule for a client, where the lists are in force.
  abbrev pub LetIn : NtpConfig → Type 0
  LetIn config =
      All Outside config.denied_clients
      × (((config.allowed_clients ≡ []) × (config.restrict_queries ≡ false))
          ⊎ Listed config.allowed_clients)

  -- A client is allowed exactly if neither access lists nor query restriction is on, or one is
  -- and the address lies outside every denied block and either there is no list of allowed
  -- clients and no restriction, or a block of that list holds the address and all before it can
  -- be read.
  pub is_client_allowed_iff :
      (config : NtpConfig)
      → (is_client_allowed inet_pton config ip ≡ ok true) ↔ (
          ((config.enable_acl ≡ false) × (config.restrict_queries ≡ false))
          ⊎ (((config.enable_acl ≡ true) ⊎ (config.restrict_queries ≡ true)) × LetIn config))
  unfolding is_client_allowed
  is_client_allowed_iff config = ground (
    arith,
    any_match-Outside config.denied_clients,
    any_match-Listed config.allowed_clients,
    is_empty_iff config.allowed_clients,
  )

-- A first denied block with no number behind its slash.
abbrev pub spoil : Bytes → NtpConfig → NtpConfig
spoil block config = record config {
  enable_acl = true;
  denied_clients = block ∷ config.denied_clients;
}

pub unreadable_list :
    (inet_pton : Bytes → Option ℕ) (ip block : Bytes) (config : NtpConfig)
    → is_ip_in_cidr inet_pton ip block ≡ exception
    → is_client_allowed inet_pton (spoil block config) ip ≡ exception
unfolding is_client_allowed any_match
unreadable_list inet_pton ip block config e = ground arith
