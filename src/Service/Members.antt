-- ===== src/Service/Members.antt =====
-- Every member of the cluster is a node that the state machine knows, while nodes join and leave through meta_leader.rs.
use databend_meta.Common.{
  text_eq, ℕ, ◌≡◌, ◌≢◌, refl, Bool, true, false, Option, none, some, List, [], ◌∷◌, All, ◌⊎◌, inl,
  inr, ◌==◌, ◌||◌, subst, sym, if◌then◌else◌,
}
use databend_meta.Types.Node.{Node}
use databend_meta.Applier.Command.{LogEntry, add_node, remove_node}
use databend_meta.Service.Leader.{
  JoinRequest, ChangeMembers, add_voters, add_nodes, remove_voters, remove_nodes, Cluster, Raft,
  has_id, is_voter, Finished, second, write, join, leave, leave_if, can_leave, joining_node, done,
  leave_via_self, role_of, learner,
}

abbrev pub has_node : ℕ → List (ℕ × Node) → Bool
has_node n [] = false
has_node n ((m, node) ∷ nodes) = m == n || has_node n nodes

-- A member of the membership that is applied, or of the one that raft works with
abbrev pub IsMember : ℕ → Cluster → Type 0
IsMember n c = (has_id n c.effective.nodes ≡ true) ⊎ (has_id n c.applied.nodes ≡ true)

-- The state machine has a node for every member.
abbrev pub MembersKnown : Cluster → Type 0
MembersKnown c = (n : ℕ) → IsMember n c → has_node n c.nodes ≡ true

-- What raft promises of its calls, whether they succeed or fail: an entry that is written changes no membership, adds or removes
-- no node but the one that it names, and has done so if the write succeeds; a change of the membership changes no node,
-- adds no member but the one that it adds, and has removed the one that it removes if it succeeds.
pub record RaftLaws {Error : Type 0} (raft : Raft Error) : Type 0 where
  pub write-members :
      (entry : LogEntry) (c : Cluster) (n : ℕ)
      → IsMember n (raft.client_write entry c).0
      → IsMember n c
  pub add_node-keeps :
      (t : Option ℕ) (id n : ℕ) (node : Node) (o : Bool) (c : Cluster)
      → has_node n c.nodes ≡ true
      → has_node n (raft.client_write (record { time_ms = t; cmd = add_node id node o }) c).0.nodes
        ≡ true
  pub add_node-adds :
      (t : Option ℕ) (id : ℕ) (node : Node) (o : Bool) (c : Cluster)
      → (raft.client_write (record { time_ms = t; cmd = add_node id node o }) c).1 ≡ none
      → has_node id (raft.client_write (record { time_ms = t; cmd = add_node id node o }) c).0.nodes
        ≡ true
  pub remove_node-keeps :
      (t : Option ℕ) (id n : ℕ) (c : Cluster)
      → id ≢ n
      → has_node n c.nodes ≡ true
      → has_node n (raft.client_write (record { time_ms = t; cmd = remove_node id }) c).0.nodes
        ≡ true
  pub change-nodes :
      (m : ChangeMembers) (c : Cluster) → (raft.change_membership m c).0.nodes ≡ c.nodes
  pub add-members :
      (id n : ℕ) (is_learner : Bool) (c : Cluster)
      → IsMember n (raft.change_membership (if is_learner then add_nodes id else add_voters id) c).0
      → (n ≡ id) ⊎ IsMember n c
  pub remove-members :
      (id n : ℕ) (voter : Bool) (c : Cluster)
      → IsMember n
          (raft.change_membership (if voter then remove_voters id else remove_nodes id) c).0
      → IsMember n c
  pub remove-removes :
      (id : ℕ) (voter : Bool) (c : Cluster)
      → (raft.change_membership (if voter then remove_voters id else remove_nodes id) c).1 ≡ none
      → ¬ IsMember id
          (raft.change_membership (if voter then remove_voters id else remove_nodes id) c).0

module _ {Error : Type 0} (raft : Raft Error) (laws : RaftLaws raft) (now : ℕ) where
  second-MembersKnown :
      (f : Cluster → Cluster × Option Error) (r : Cluster × Option Error)
      → MembersKnown r.0
      → (r.1 ≡ none → MembersKnown (f r.0).0)
      → All MembersKnown (second f r).0
  second-MembersKnown f (c, some e) h k = (h, tt)
  second-MembersKnown f (c, none) h k = (h, (k refl, tt))

  change-MembersKnown :
      (m : ChangeMembers) (c : Cluster) (n : ℕ)
      → has_node n c.nodes ≡ true
      → has_node n (raft.change_membership m c).0.nodes ≡ true
  change-MembersKnown m c n h = subst (λ ns. has_node n ns ≡ true) (sym (laws.change-nodes m c)) h

  joined-MembersKnown :
      (id : ℕ) (node : Node) (is_learner : Bool) (c : Cluster)
      → MembersKnown c
      → All MembersKnown
          (second
            (raft.change_membership (if is_learner then add_nodes id else add_voters id))
            (write raft now (add_node id node false) c)).0
  unfolding write
  joined-MembersKnown id node is_learner c h =
      let entry : LogEntry = record { time_ms = some now; cmd = add_node id node false } in
      let known : MembersKnown (raft.client_write entry c).0 = λ n member.
        laws.add_node-keeps (some now) id n node false c
          (h n (laws.write-members entry c n member)) in
      let message = if is_learner then add_nodes id else add_voters id in
      second-MembersKnown (raft.change_membership message) (raft.client_write entry c) known
        (λ success n member.
          change-MembersKnown message (raft.client_write entry c).0 n
            (elim (laws.add-members id n is_learner (raft.client_write entry c).0 member) [
              | inl same ↦
                  subst (λ k. has_node k (raft.client_write entry c).0.nodes ≡ true) (sym same)
                    (laws.add_node-adds (some now) id node false c success)
              | inr before ↦ known n before
            ]))

  left-MembersKnown :
      (id : ℕ) (voter : Bool) (c : Cluster)
      → MembersKnown c
      → All MembersKnown
          (second
            (write raft now (remove_node id))
            (raft.change_membership (if voter then remove_voters id else remove_nodes id) c)).0
  unfolding write
  left-MembersKnown id voter c h =
      let entry : LogEntry = record { time_ms = some now; cmd = remove_node id } in
      let m = if voter then remove_voters id else remove_nodes id in
      let known : MembersKnown (raft.change_membership m c).0 =
        λ n member. change-MembersKnown m c n (h n (laws.remove-members id n voter c member)) in
      second-MembersKnown (raft.client_write entry) (raft.change_membership m c) known
        (λ success n member.
          let before = laws.write-members entry (raft.change_membership m c).0 n member in
          laws.remove_node-keeps (some now) id n (raft.change_membership m c).0
            (λ same.
              laws.remove-removes id voter c success
                (subst (λ k. IsMember k (raft.change_membership m c).0) (sym same) before))
            (known n before))

  if-MembersKnown :
      (b : Bool) (l m : List Cluster × Finished Error)
      → All MembersKnown l.0
      → All MembersKnown m.0
      → All MembersKnown (if◌then◌else◌ {A = List Cluster × Finished Error} b l m).0
  if-MembersKnown true l m h k = h
  if-MembersKnown false l m h k = k

  join-MembersKnown :
      (req : JoinRequest) (c : Cluster) → MembersKnown c → All MembersKnown (join raft now req c).0
  unfolding join
  join-MembersKnown req c h =
      if-MembersKnown (is_voter req.node_id c.effective.configs) ([], done) _ tt
        (joined-MembersKnown req.node_id (joining_node req) (text_eq (role_of req) learner) c h)

  leave_if-MembersKnown :
      (b : Option Bool) (l : List Cluster × Finished Error)
      → All MembersKnown l.0
      → All MembersKnown (leave_if b l).0
  leave_if-MembersKnown none l h = tt
  leave_if-MembersKnown (some false) l h = tt
  leave_if-MembersKnown (some true) l h = h

  leave-MembersKnown :
      (id node_id : ℕ) (c : Cluster)
      → MembersKnown c
      → All MembersKnown (leave raft now id node_id c).0
  unfolding leave
  leave-MembersKnown id node_id c h =
      if-MembersKnown (node_id == id) ([], leave_via_self) _ tt
        (leave_if-MembersKnown (can_leave node_id c) _
          (left-MembersKnown node_id (is_voter node_id c.applied.configs) c h))

  -- Where the state machine has a node for every member of the cluster, and raft keeps its promises: this holds after every call that
  -- joining and leaving make, also when a later one fails.
  pub calls-MembersKnown :
      (c : Cluster)
      → MembersKnown c
      → ((req : JoinRequest) → All MembersKnown (join raft now req c).0)
        × ((id node_id : ℕ) → All MembersKnown (leave raft now id node_id c).0)
  calls-MembersKnown c h =
      (λ req. join-MembersKnown req c h, λ id node_id. leave-MembersKnown id node_id c h)
