-- ===== src/Handlers/ShownWallets.antt =====
-- What the replies of the wallet handler show.
use betting_processing_go.Prelude.{◌≡◌, refl, String, Option, none, some}
use betting_processing_go.Prelude.Text.{trim_string}
use betting_processing_go.Errors.{Result, ok, err}
use betting_processing_go.Money.{Money}
use betting_processing_go.Wallet.{Wallet}
use betting_processing_go.Store.{Env, World}
use betting_processing_go.Store.During.{lift-During, map_err-During}
use betting_processing_go.WalletService.{create_wallet, write_wallet}
use betting_processing_go.Handlers.Responses.{write_json, is_blank}
use betting_processing_go.Handlers.Transactions.{}
use betting_processing_go.Handlers.Wallets.{
  WalletCreateRequest, parse_initial, created_reply, create_parsed, post_wallet, wallet_reply,
  show_wallet, owner_refusal, check_wallet,
}
use betting_processing_go.Handlers.Serve.{}
use betting_processing_go.Handlers.Shown.{
  Shows, ShowsSome, Yields, anything, gives, then-Yields, attempt-Yields, wallet_failure-Shows,
  wallet_reply-Shows, created_failure-Shows, rehydrated, choose-Yields, owner_refusal-Shows,
}

abbrev Ours : String → Wallet → Type 0
Ours p w = trim_string w.provider_id ≡ trim_string p

module _ (p id : String) (env : Env) where
  write_wallet-Yields :
      (player_id : String) (m : Money) (w : World)
      → Yields (Ours p) (write_wallet env p player_id m w)
  unfolding write_wallet
  write_wallet-Yields player_id m w =
      then-Yields (λ _. Unit {0}) (Ours p) _ _ w (anything _)
        (λ wallet_id w1 _.
          then-Yields (λ _. Unit {0}) (Ours p) _ _ w1 (anything _)
            (λ now w2 _.
              then-Yields (Ours p) (Ours p) _ _ w2
                (map_err-During (λ _. Unit {0}) _ _ w2
                  (lift-During (λ _. Unit {0}) _ w2 tt (λ r e. rehydrated p id _ r refl e)))
                (λ r w3 own.
                  then-Yields (λ _. Unit {0}) (Ours p) _ _ w3 (anything _)
                    (λ u w4 _. gives (Ours p) r w4 own))))

  create_wallet-Yields :
      (player_id : String) (m : Money) (w : World)
      → Yields (Ours p) (create_wallet env p player_id m w)
  unfolding create_wallet
  create_wallet-Yields player_id m w =
      then-Yields (λ _. Unit {0}) (Ours p) _ _ w (anything _)
        (λ _ w1 _.
          then-Yields (λ _. Unit {0}) (Ours p) _ _ w1 (anything _)
            (λ _ w2 _.
              then-Yields (λ _. Unit {0}) (Ours p) _ _ w2 (anything _)
                (λ _ w3 _.
                  then-Yields (λ _. Unit {0}) (Ours p) _ _ w3 (anything _)
                    (λ _ w4 _.
                      then-Yields (λ _. Unit {0}) (Ours p) _ _ w4 (anything _)
                        (λ _ w5 _.
                          then-Yields (λ _. Unit {0}) (Ours p) _ _ w5 (anything _)
                            (λ _ w6 _.
                              then-Yields (Ours p) (Ours p) _ _ w6
                                (write_wallet-Yields player_id m w6)
                                (λ r w7 own.
                                  then-Yields (λ _. Unit {0}) (Ours p) _ _ w7 (anything _)
                                    (λ _ w8 _. gives (Ours p) r w8 own))))))))

  created_reply-Shows : (x : Wallet) → Ours p x → Shows p id (created_reply (ok x)).body
  unfolding created_reply
  created_reply-Shows x own = own

  pub post_wallet-Yields :
      (body : Option WalletCreateRequest) (w : World)
      → Yields (λ r. Shows p id r.body) (post_wallet env (some p) body w)
  unfolding post_wallet create_parsed write_json
  post_wallet-Yields none w = gives (λ r. Shows p id r.body) _ w tt
  post_wallet-Yields (some req) w =
      choose-Yields p id (is_blank req.player_id) _ _ w (gives (λ r. Shows p id r.body) _ w tt)
        (parsed req.player_id (parse_initial req.initial_balance) w)
    where
      parsed :
          (player_id : String) (m : Result Money) (w1 : World)
          → Yields (λ r. Shows p id r.body) (create_parsed env p player_id m w1)
      parsed player_id (err e) w1 = gives (λ r. Shows p id r.body) _ w1 tt
      parsed player_id (ok m) w1 =
          attempt-Yields (Ours p) (λ r. Shows p id r.body) _ created_reply w1
            (create_wallet-Yields player_id m w1) (λ x own. created_reply-Shows x own)
            (λ e. created_failure-Shows p id e)

  pub show_wallet-Yields :
      (wallet_id : String) (w : World)
      → Yields (λ r. Shows p id r.body) (show_wallet env (some p) wallet_id w)
  unfolding show_wallet write_json
  show_wallet-Yields wallet_id w =
      choose-Yields p id (is_blank wallet_id) _ _ w (gives (λ r. Shows p id r.body) _ w tt) (
        attempt-Yields (λ _. Unit {0}) (λ r. Shows p id r.body) _ (wallet_reply (some p)) w
          (anything _) (λ x _. wallet_reply-Shows p id x) (λ e. wallet_failure-Shows p id e))

  pub check_wallet-Yields : (w : World) → Yields (ShowsSome p id) (check_wallet env (some p) id w)
  unfolding check_wallet owner_refusal
  check_wallet-Yields w =
      attempt-Yields (λ _. Unit {0}) (ShowsSome p id) _ (owner_refusal p) w (anything _)
        (λ x _. owner_refusal-Shows p id env x) (λ e. wallet_failure-Shows p id e)
