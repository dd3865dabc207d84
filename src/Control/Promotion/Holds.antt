-- ===== src/Control/Promotion/Holds.antt =====
-- control/src/promotionAuthority.ts: the commands that the authority gives to git.
use charterion.Prelude.{Text, List}
use charterion.Control.Runs.{Command, Git}
use charterion.Control.Runs.Holds.{Holds, Holds-run_in}
use charterion.Control.Promotion.{Store, run_git, project_root, git_failed}

pub Holds-git :
    (IsFine : Command → Type 0) (git : Git) (store : Store) (project_id : Text) (args : List Text)
    → ((root : Text) → IsFine (root, args))
    → Holds IsFine (λ out. Unit {0}) (run_git git store project_id args)
unfolding run_git
Holds-git IsFine git store project_id args fine_args =
    Holds-run_in IsFine git_failed git args (project_root store project_id) fine_args
