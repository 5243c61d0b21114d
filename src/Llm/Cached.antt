-- ===== src/Llm/Cached.antt =====
-- An answer is paid for once.
use agentic_cloud_pipeline_g.Prelude.{
  ◌+◌, ◌≡◌, refl, Option, none, some, arith, Bool-cases, inl, inr,
}
use agentic_cloud_pipeline_g.Prelude.Dict.{lookup, lookup-insert_self}
use agentic_cloud_pipeline_g.Llm.{
  LlmResult, Client, Call, Source, exceeded, run_with_degrade, settle, ask, recall, propose,
}

-- Whether a step has degraded its proposal.
abbrev IsServed : Client → Client → Type 0
IsServed c c' =
    (c'.degraded_budget ≡ c.degraded_budget) × (c'.degraded_unavailable ≡ c.degraded_unavailable)

settle-cached :
    (o : Option LlmResult) (q : Call) (c : Client)
    → IsServed c (settle q o c).1
    → lookup q.key (settle q o c).1.cache ≡ some (settle q o c).0
unfolding settle
settle-cached none q c h = absurd (ground (arith, h.1))
settle-cached (some r) q c h = lookup-insert_self q.key r c.cache

ask-cached :
    (q : Call) (c : Client)
    → IsServed c (ask q c).1
    → lookup q.key (ask q c).1.cache ≡ some (ask q c).0
unfolding ask
ask-cached q c h = elim (Bool-cases (exceeded c)) [
  | inl t ↦ absurd (ground (arith, t, h.0))
  | inr f ↦ rw f (settle-cached (run_with_degrade q.source) q c (rw f at h))
]

recall-cached :
    (o : Option LlmResult) (q : Call) (c : Client)
    → lookup q.key c.cache ≡ o
    → IsServed c (recall o q c).1
    → lookup q.key (recall o q c).1.cache ≡ some (recall o q c).0
unfolding recall
recall-cached none q c e h = ask-cached q c h
recall-cached (some r) q c e h = e

-- A proposal that was not degraded is cached: the same proposal again, whatever the provider would
-- now answer, returns the same result, and only the count of the hits changes.
pub propose_again :
    (q : Call) (c : Client) (s : Source)
    → (propose q c).1.degraded_budget ≡ c.degraded_budget
    → (propose q c).1.degraded_unavailable ≡ c.degraded_unavailable
    → propose (record q { source = s }) (propose q c).1
      ≡ ((propose q c).0, record (propose q c).1 { cache_hits = (propose q c).1.cache_hits + 1 })
unfolding propose recall
propose_again q c s h k = rw (recall-cached (lookup q.key c.cache) q c refl (h, k)) refl
