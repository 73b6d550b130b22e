-- ===== src/Share/Follow.antt =====
-- Followed portfolios (backend/app/api/v1/share.py).
use coin_hq.Base.{ℕ, not, ◌&&◌, List, [], ◌∷◌, ◌++◌, Option, none, some, keep, find, ◌==◌, nat_eq}
use coin_hq.Base.Text.{Text, text_eq}
use coin_hq.Store.{
  User, FollowedPortfolio, Db, Action, ◌>>=◌, ◌>>◌, raise_if, gets, or_raise, modify, fresh_id,
  pure,
}
use coin_hq.Store.Queries.{get_followed}
use coin_hq.Share.{find_active}

module _ {F : Type 0} where
  abbrev pub find_followed : ℕ → Text → Db F → Option FollowedPortfolio
  find_followed user_id token d = find (λ f. f.user_id == user_id && f.token == token) d.followed

  abbrev pub add_followed : User → Text → Option Text → Action F FollowedPortfolio
  add_followed user token label = do
    i ← fresh_id
    let f : FollowedPortfolio = record { id = i; user_id = user.id; token = token; label = label }
    modify (λ d. record d { followed = d.followed ++ f ∷ [] })
    pure f

  -- Following twice returns the row that is there.
  unfoldable pub follow_portfolio : Text → User → Action F FollowedPortfolio
  follow_portfolio token user = do
    link ← or_raise (← gets (find_active token)) 404
    raise_if (not link.allow_follow) 403
    existing ← gets (find_followed user.id token)
    elim existing [ some f ↦ pure f | none ↦ add_followed user token link.label ]

  unfoldable pub list_followed : User → Db F → List FollowedPortfolio
  list_followed user d = keep (λ f. f.user_id == user.id) d.followed

  unfoldable pub unfollow_portfolio : ℕ → User → Action F (Unit {0})
  unfollow_portfolio followed_id user = do
    f ← or_raise (← gets (get_followed followed_id)) 404
    raise_if (not (f.user_id == user.id)) 404
    modify (λ d. record d { followed = keep (λ g. not (g.id == f.id)) d.followed })
