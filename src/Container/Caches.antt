-- ===== src/Container/Caches.antt =====
-- core/spakky/src/spakky/core/application/application_context.py: the singleton cache and the cache
-- of the current context.
use spakky_framework.Common.{String, List, [], dict_set}

-- `__singleton_cache` and `__context_cache`, and what is outside of the container.
pub record Instances (O W : Type 0) : Type 0 where
  pub singleton_cache : List (String × O)
  pub context_cache : List (String × O)
  pub outside : W

module _ {O W : Type 0} where
  unfoldable pub set_singleton_cache : String → O → Instances O W → Instances O W
  unfolding dict_set
  set_singleton_cache name o s = record s { singleton_cache = dict_set name o s.singleton_cache }

  unfoldable pub set_context_cache : String → O → Instances O W → Instances O W
  unfolding dict_set
  set_context_cache name o s = record s { context_cache = dict_set name o s.context_cache }

  unfoldable pub clear_context : Instances O W → Instances O W
  clear_context s = record s { context_cache = [] }
