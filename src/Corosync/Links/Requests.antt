-- ===== src/Corosync/Links/Requests.antt =====
-- Any sequence of operations of `LinkManager` of crmsh/corosync.py.
use crmsh.Prelude.{ℕ, ◌≡◌, refl, Option, none, List, [], ◌∷◌, Text, All}
use crmsh.Prelude.Results.{Result, ok, err}
use crmsh.Corosync.Links.State.{Config, LinkError}
use crmsh.Corosync.Links.Addresses.{update_node_addr}
use crmsh.Corosync.Links.Settings.{update_link}
use crmsh.Corosync.Links.Editing.{
  Ended, end_with, add_addresses, add_link, drop_link, remove_interfaces, remove_link,
}
use crmsh.Corosync.Links.Members.{IsMapping}
use crmsh.Corosync.Links.Unique.{HasUnique}
use crmsh.Corosync.Links.Managed.{
  update_node_addr-HasUnique, add_addresses-HasUnique, update_link-HasUnique,
}
use crmsh.Corosync.Links.Removed.{drop_link-HasUnique, remove_interfaces-HasUnique}

-- A call of one of the four methods.
pub data Request : Type 0 where
  addresses : ℕ → List (ℕ × Text) → Request
  settings : ℕ → List (Text × Option Text) → Request
  addition : List (ℕ × Text) → List (Text × Option Text) → Request
  removal : ℕ → Request

-- Python's mappings have no key twice.
abbrev pub IsRequest : Request → Type 0
IsRequest (addresses i given) = IsMapping given
IsRequest (settings i options) = Unit
IsRequest (addition given options) = IsMapping given
IsRequest (removal i) = Unit

module _ {Number : Type 0} (int : Text → Option Number) (str : Number → Text)
    (ip : Text → Option ℕ) where
  abbrev pub call_method : Request → Config → Ended
  call_method (addresses i given) config = end_with config (update_node_addr int ip i given config)
  call_method (settings i options) config = end_with config (update_link int str i options config)
  call_method (addition given options) config = add_link int str ip given options config
  call_method (removal i) config = remove_link int i config

  -- The configuration after some calls, those that raise among them.
  abbrev pub after_calls : List Request → Config → Config
  after_calls [] config = config
  after_calls (r ∷ rs) config = after_calls rs (call_method r config).0

end_with-HasUnique :
    (ip : Text → Option ℕ) (config : Config) (r : Result LinkError Config)
    → HasUnique ip config
    → ((config' : Config) → r ≡ ok config' → HasUnique ip config')
    → HasUnique ip (end_with config r).0
end_with-HasUnique ip config (ok config') u f = f config' refl
end_with-HasUnique ip config (err e) u f = u

module _ {Number : Type 0} (int : Text → Option Number) (str : Number → Text) (ip : Text → Option ℕ)
    (no_address : ip [] ≡ none) where
  add_link-HasUnique :
      (given : List (ℕ × Text)) (options : List (Text × Option Text)) (config : Config)
      → HasUnique ip config
      → IsMapping given
      → HasUnique ip (add_link int str ip given options config).0
  unfolding add_link
  add_link-HasUnique given options config u m =
      go (add_addresses int ip given config)
        (λ i c e. add_addresses-HasUnique int ip no_address i given config c u m e)
    where
      go :
          (r : Result LinkError (ℕ × Config))
          → ((i : ℕ) (c : Config) → r ≡ ok (i, c) → HasUnique ip c)
          → HasUnique ip
              (elim r as (λ x. Ended) [
                | err e ↦ (config, err e)
                | ok (i, config') ↦ end_with config' (update_link int str i options config')
              ]).0
      go (err e) f = u
      go (ok (i, c)) f =
          end_with-HasUnique ip c (update_link int str i options c) (f i c refl)
            (λ c' e. update_link-HasUnique int ip no_address str i options c c' (f i c refl) e)

  remove_link-HasUnique :
      (i : ℕ) (config : Config) → HasUnique ip config → HasUnique ip (remove_link int i config).0
  unfolding remove_link
  remove_link-HasUnique i config u =
      go (drop_link int i config) (λ c e. drop_link-HasUnique int ip no_address i config c u e)
    where
      go :
          (r : Result LinkError Config)
          → ((c : Config) → r ≡ ok c → HasUnique ip c)
          → HasUnique ip
              (elim r as (λ x. Ended) [
                | err e ↦ (config, err e)
                | ok config' ↦ end_with config' (remove_interfaces i config')
              ]).0
      go (err e) f = u
      go (ok c) f =
          end_with-HasUnique ip c (remove_interfaces i c) (f c refl)
            (λ c' e. remove_interfaces-HasUnique int ip no_address i c c' (f c refl) e)

  call_method-HasUnique :
      (r : Request) (config : Config)
      → IsRequest r
      → HasUnique ip config
      → HasUnique ip (call_method int str ip r config).0
  call_method-HasUnique (addresses i given) config m u =
      end_with-HasUnique ip config (update_node_addr int ip i given config) u
        (λ c e. update_node_addr-HasUnique int ip no_address i given config c u m e)
  call_method-HasUnique (settings i options) config m u =
      end_with-HasUnique ip config (update_link int str i options config) u
        (λ c e. update_link-HasUnique int ip no_address str i options config c u e)
  call_method-HasUnique (addition given options) config m u =
      add_link-HasUnique given options config u m
  call_method-HasUnique (removal i) config m u = remove_link-HasUnique i config u

  -- Where the configuration has the same links for all nodes, and no address of these links twice, it
  -- stays so under any calls of `update_node_addr`, `update_link`, `add_link` and `remove_link`, those
  -- that raise in the middle included. The empty string is no address for Python's `ipaddress`.
  pub after_calls-HasUnique :
      (requests : List Request) (config : Config)
      → All IsRequest requests
      → HasUnique ip config
      → HasUnique ip (after_calls int str ip requests config)
  after_calls-HasUnique [] config m u = u
  after_calls-HasUnique (r ∷ rs) config m u =
      after_calls-HasUnique rs (call_method int str ip r config).0 m.1
        (call_method-HasUnique r config m.0 u)
