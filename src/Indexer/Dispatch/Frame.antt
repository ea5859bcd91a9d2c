-- ===== src/Indexer/Dispatch/Frame.antt =====
-- `handleLog` on the logs that the ledgers do not count: assets, wallets, the protocol, the
-- `TransferSingle` logs from or to the zero address, and the logs without a case.
use agro_diamond_compliance.Prelude.{
  ℕ, ◌≡◌, ◌≢◌, true, none, Option, List, [], ◌∷◌, arith, bytes_eq, bytes_discrete, ◌⊎◌,
}
use agro_diamond_compliance.Bytes.{Bytes, codes}
use agro_diamond_compliance.Action.{Returns, logged}
use agro_diamond_compliance.Ethereum.{Ethereum, zero_address}
use agro_diamond_compliance.Node.{Log, Node}
use agro_diamond_compliance.RocksDb.{RocksDb, IsReliable}
use agro_diamond_compliance.Store.Cursor.{set_cursor}
use agro_diamond_compliance.Store.Keys.{prefix_cursor}
use agro_diamond_compliance.Store.Ledger.Frame.{cursor-IsForeign}
use agro_diamond_compliance.Store.Ledger.Quiet.{
  IsSilent, IsQuiet, Unmoved, Unmoved-refl, then-IsSilent, logged-IsSilent, put-IsQuiet,
}
use agro_diamond_compliance.Indexer.Abi.{has_bytes}
use agro_diamond_compliance.Indexer.Assets.{string_of_log}
use agro_diamond_compliance.Indexer.Transfers.{handle_transfer_single}
use agro_diamond_compliance.Indexer.Transfers.Branches.{handle_transfer_single-skips}
use agro_diamond_compliance.Indexer.Quiet.Wallets
use agro_diamond_compliance.Indexer.Quiet.Protocol
use agro_diamond_compliance.Indexer.Quiet.Assets
use agro_diamond_compliance.Indexer.Dispatch.{
  Handler, handle_log, handlers, dispatch, handle_topics, minted_sig, burned_sig,
  forced_transfer_sig, transfer_single_sig,
}
use agro_diamond_compliance.Indexer.Dispatch.Cursor.{handle_log_lem}

abbrev pub asset_registered_sig : Bytes
asset_registered_sig = codes "AssetRegistered(uint256,address,uint32)"

abbrev pub uri_sig : Bytes
uri_sig = codes "URI(string,uint256)"

abbrev pub plugin_registered_sig : Bytes
plugin_registered_sig = codes "GlobalPluginRegistered(address,string)"

infixr 4 ◌▸◌
abbrev ◌▸◌ : {A B : Type 0} → A → B → A × B
a ▸ b = (a, b)

module _ (db : RocksDb) (L : IsReliable db) (eth : Ethereum) (diamond : Bytes)
    (client : Option Node) where
  open db use {State}

  -- A transfer from or to the zero address, or without the topics of both.
  abbrev pub IsSkipped : List Bytes → Type 0
  IsSkipped (_ ∷ _ ∷ from ∷ to ∷ _) =
      (eth.bytes_to_address from ≡ zero_address) ⊎ (eth.bytes_to_address to ≡ zero_address)
  IsSkipped _ = Unit

  -- A log that is not `Minted`, not `Burned`, and not a `TransferSingle` between two addresses other
  -- than the zero address, and whose handler does not panic: what it decodes of the data is there,
  -- and the contract's answers decode. It may be a `TransferBatch`, which has no case.
  pub record IsBystander (sig : Bytes) (topics : List Bytes) (log : Log) : Type 0 where
    pub no_mint : sig ≢ eth.keccak256_hash minted_sig
    pub no_burn : sig ≢ eth.keccak256_hash burned_sig
    pub no_transfer : sig ≡ eth.keccak256_hash transfer_single_sig → IsSkipped (sig ∷ topics)
    pub has_amount : sig ≡ eth.keccak256_hash forced_transfer_sig → has_bytes 32 log.bytes ≡ true
    pub has_uri : sig ≡ eth.keccak256_hash uri_sig → string_of_log log.bytes ≢ none
    pub has_name : sig ≡ eth.keccak256_hash plugin_registered_sig → string_of_log log.bytes ≢ none
    pub answers :
        sig ≡ eth.keccak256_hash asset_registered_sig
        → Assets.AreDecoded eth diamond client (sig ∷ topics)

  -- The handlers that the first topic selects are silent.
  unfoldable AreSilent :
      List (Bytes × Handler db eth diamond client) → Bytes → List Bytes → Log → Type 0
  AreSilent [] sig topics log = Unit
  AreSilent ((name, handler) ∷ list) sig topics log =
      (sig ≡ eth.keccak256_hash name → IsSilent db L (handler topics log))
      × AreSilent list sig topics log

  -- The first case is taken, or passed over.
  pub dispatch-hit :
      (name : Bytes) (handler : Handler db eth diamond client)
      (list : List (Bytes × Handler db eth diamond client)) (sig : Bytes) (topics : List Bytes)
      (log : Log) (s : State)
      → sig ≡ eth.keccak256_hash name
      → dispatch db eth diamond client ((name, handler) ∷ list) sig topics log s
        ≡ handler topics log s
  unfolding dispatch
  dispatch-hit name handler list sig topics log s e = ground arith

  pub dispatch-miss :
      (name : Bytes) (handler : Handler db eth diamond client)
      (list : List (Bytes × Handler db eth diamond client)) (sig : Bytes) (topics : List Bytes)
      (log : Log) (s : State)
      → sig ≢ eth.keccak256_hash name
      → dispatch db eth diamond client ((name, handler) ∷ list) sig topics log s
        ≡ dispatch db eth diamond client list sig topics log s
  unfolding dispatch
  dispatch-miss name handler list sig topics log s e = ground arith

  dispatch-IsSilent :
      (list : List (Bytes × Handler db eth diamond client)) (sig : Bytes) (topics : List Bytes)
      (log : Log)
      → AreSilent list sig topics log
      → IsSilent db L (dispatch db eth diamond client list sig topics log)
  unfolding AreSilent
  dispatch-IsSilent [] sig topics log h s = unfold dispatch in Unmoved-refl db L s
  dispatch-IsSilent ((name, handler) ∷ list) sig topics log (own, others) s =
      elim (bytes_discrete sig (eth.keccak256_hash name)) [
        | yes e ↦ rw (dispatch-hit name handler list sig topics log s e) (own e s)
        | no e ↦
            rw (dispatch-miss name handler list sig topics log s e)
              (dispatch-IsSilent list sig topics log others s)
      ]

  handle_transfer_single-IsSilent :
      (topics : List Bytes) (log : Log)
      → IsSkipped topics
      → IsSilent db L (handle_transfer_single db eth topics log)
  handle_transfer_single-IsSilent (sig ∷ operator ∷ from ∷ to ∷ more) log h s =
      rw (handle_transfer_single-skips db eth sig operator from to more log s h)
        (Unmoved-refl db L s)
  handle_transfer_single-IsSilent _ log h s = unfold handle_transfer_single in Unmoved-refl db L s

  pub set_cursor-IsQuiet : (block : ℕ) → IsQuiet db L (set_cursor db block)
  unfolding set_cursor
  set_cursor-IsQuiet block = put-IsQuiet db L prefix_cursor _ cursor-IsForeign

  handlers-AreSilent :
      (sig : Bytes) (topics : List Bytes) (log : Log)
      → IsBystander sig topics log
      → AreSilent (handlers db eth diamond client) sig (sig ∷ topics) log
  unfolding AreSilent handlers
  handlers-AreSilent sig topics log h =
      let all = sig ∷ topics in
      (λ e. absurd (h.no_mint e))
      ▸ (λ e. absurd (h.no_burn e))
      ▸ (λ e. Assets.handle_forced_transfer-IsSilent db L eth all log (h.has_amount e))
      ▸ (λ e. handle_transfer_single-IsSilent all log (h.no_transfer e))
      ▸ (λ e. Assets.handle_asset_registered-IsSilent db L eth diamond client all log (h.answers e))
      ▸ (λ _. Protocol.handle_generic_event-IsSilent db L eth _ all log)
      ▸ (λ _. Protocol.handle_generic_event_with_token_and_addr-IsSilent db L eth _ all log)
      ▸ (λ _. Protocol.handle_generic_event_with_token_and_addr-IsSilent db L eth _ all log)
      ▸ (λ e. Assets.handle_uri-IsSilent db L eth all log (h.has_uri e))
      ▸ (λ _. Wallets.handle_identity_bound-IsSilent db L eth all log)
      ▸ (λ _. Wallets.handle_identity_unbound-IsSilent db L eth all log)
      ▸ (λ _. Wallets.handle_wallet_frozen-IsSilent db L eth all log)
      ▸ (λ _. Wallets.handle_asset_frozen-IsSilent db L eth all log)
      ▸ (λ _. Wallets.handle_partial_freeze-IsSilent db L eth all log)
      ▸ (λ _. Wallets.handle_lockup_set-IsSilent db L eth all log)
      ▸ (λ _. Protocol.handle_role_event-IsSilent db L eth _ all log)
      ▸ (λ _. Protocol.handle_role_event-IsSilent db L eth _ all log)
      ▸ (λ _. Protocol.handle_generic_event_addr_only-IsSilent db L eth _ all log)
      ▸ (λ _. Protocol.handle_generic_event_addr_only-IsSilent db L eth _ all log)
      ▸ (λ _. Protocol.handle_asset_paused-IsSilent db L eth _ all log)
      ▸ (λ _. Protocol.handle_asset_paused-IsSilent db L eth _ all log)
      ▸ (λ _. Wallets.handle_wallet_recovered-IsSilent db L eth all log)
      ▸ (λ _. Protocol.handle_snapshot_created-IsSilent db L eth all log)
      ▸ (λ _. Protocol.handle_dividend_created-IsSilent db L eth all log)
      ▸ (λ _. Protocol.handle_dividend_claimed-IsSilent db L eth all log)
      ▸ (λ _. Protocol.handle_generic_event-IsSilent db L eth _ all log)
      ▸ (λ _. Protocol.handle_generic_event-IsSilent db L eth _ all log)
      ▸ (λ e. Assets.handle_global_plugin_registered-IsSilent db L eth all log (h.has_name e))
      ▸ (λ _. Protocol.handle_generic_event_addr_only-IsSilent db L eth _ all log)
      ▸ (λ _. Protocol.handle_global_plugin_status_changed-IsSilent db L eth all log)
      ▸ (λ _. Protocol.handle_generic_event_with_token_and_addr-IsSilent db L eth _ all log)
      ▸ (λ _. Protocol.handle_generic_event_with_token_and_addr-IsSilent db L eth _ all log)
      ▸ (λ _. Protocol.handle_generic_event-IsSilent db L eth _ all log)
      ▸ (λ _. Protocol.handle_reward_asset_event-IsSilent db L eth _ all log)
      ▸ (λ _. Protocol.handle_reward_asset_event-IsSilent db L eth _ all log)
      ▸ (λ _. Protocol.handle_yield_deposited-IsSilent db L eth all log)
      ▸ (λ _. Protocol.handle_yield_claimed-IsSilent db L eth all log)
      ▸ (λ _. Protocol.handle_country_restriction-IsSilent db L eth _ all log)
      ▸ (λ _. Protocol.handle_country_restriction-IsSilent db L eth _ all log)
      ▸ (λ _. Protocol.handle_max_setting-IsSilent db L eth _ _ all log)
      ▸ (λ _. Protocol.handle_max_setting-IsSilent db L eth _ _ all log)
      ▸ tt

  handle_topics-IsSilent :
      (sig : Bytes) (topics : List Bytes) (log : Log)
      → IsBystander sig topics log
      → IsSilent db L (handle_topics db eth diamond client (sig ∷ topics) log)
  unfolding handle_topics
  handle_topics-IsSilent sig topics log h =
      then-IsSilent db L _ (logged (set_cursor db log.block_number))
        (dispatch-IsSilent (handlers db eth diamond client) sig (sig ∷ topics) log
          (handlers-AreSilent sig topics log h))
        (logged-IsSilent db L (set_cursor db log.block_number)
          (set_cursor-IsQuiet log.block_number))

  -- On a reliable database, a log that is neither `Minted` nor `Burned`, and no `TransferSingle`
  -- between two addresses other than the zero address, on whose data and answers the handler does
  -- not panic, returns, keeps the ledger of every token, and leaves the balance row of every
  -- address as it was. Logs of `TransferBatch` and of any signature without a case are among these.
  pub handle_log-Unmoved :
      (sig : Bytes) (topics : List Bytes) (log : Log) (s : State)
      → log.topics ≡ sig ∷ topics
      → IsBystander sig topics log
      → Returns (handle_log db eth diamond client log s) (Unmoved db L s)
  handle_log-Unmoved sig topics log s e h =
      rw (handle_log_lem db L eth diamond client (sig ∷ topics) log s e)
        (handle_topics-IsSilent sig topics log h s)
