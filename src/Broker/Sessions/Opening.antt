-- ===== src/Broker/Sessions/Opening.antt =====
-- The file of a box, opened behind its end in mbroker/mbroker.c.
use t_cnico_file_system_pt.Prelude.{
  ℕ, ◌≡◌, inl, inr, refl, ap, ◌∙◌, arith, pos, List, ◌∷◌, Option, some, get_elem?,
  get_elem?-set_self, get_elem?_bound, set, false,
}
use t_cnico_file_system_pt.State.Types.{State, Inode, OpenFileEntry, done, free, taken}
use t_cnico_file_system_pt.State.Dir.Listing.{lookup}
use t_cnico_file_system_pt.Invariant.Defs.{IsSound, root_entries}
use t_cnico_file_system_pt.Operations.Open.{tfs_open}
use t_cnico_file_system_pt.Operations.Open.Handle.{path_to, table_full, handle}
use t_cnico_file_system_pt.Operations.Open.Existing.{tfs_open-Reopens}
use t_cnico_file_system_pt.Operations.Transfer.WriteCall.Ends.{IsHandle}
use t_cnico_file_system_pt.Broker.Manage.Create.{reclosed}

pub record OpensAtEnd (fs : State) (path : Option (List ℕ)) (i : ℕ) (v : Inode) : Type 0 where
  pub number : ℕ
  pub opened : State
  pub opens : tfs_open path 4 fs ≡ done (pos number, opened)
  pub sound : IsSound 0 opened
  pub unlocked : opened.mutex_locked ≡ false
  pub entry : OpenFileEntry
  pub on_file : IsHandle 0 opened number entry i v
  pub at_end : entry.of_offset ≡ v.i_size
  pub same_data : opened.fs_data ≡ fs.fs_data
  pub same_params : opened.params ≡ fs.params
  pub same_blocks : opened.free_blocks ≡ fs.free_blocks
  pub same_directory : root_entries 0 opened ≡ root_entries 0 fs
  pub same_handles : set opened.free_open_file_entries number free ≡ fs.free_open_file_entries

pub opens_at_end :
    (fs : State) (c : ℕ) (name : List ℕ) (i h : ℕ) (v : Inode)
    → IsSound 0 fs
    → fs.mutex_locked ≡ false
    → lookup (root_entries 0 fs) (c ∷ name) ≡ pos i
    → get_elem? fs.free_open_file_entries h ≡ some free
    → get_elem? fs.inode_table i ≡ some v
    → OpensAtEnd fs (path_to c name) i v
opens_at_end fs c name i h v ok unheld e f at =
    let r = tfs_open-Reopens c name 4 i ok unheld e in
    let same : r.inode ≡ v = ground (arith, r.at_inumber, at) in
    elim r.opens [
      | table_full all eq sound ↦ absurd (
          ground (
            arith,
            all h (
                omega (
                  arith,
                  get_elem?_bound fs.free_open_file_entries h free f,
                  ok.shape.open_file_states,
                )),
            f,
          ))
      | handle k g before eq sound ↦ record {
        number = k;
        opened = _;
        opens = eq;
        sound = sound;
        unlocked = refl;
        entry = record { of_inumber = pos i; of_offset = r.inode.i_size };
        on_file = record {
          opened =
              get_elem?-set_self fs.free_open_file_entries k taken
                (get_elem?_bound fs.free_open_file_entries k free g);
          entry = get_elem?-set_self fs.open_file_table k _ (
              omega (
                arith,
                get_elem?_bound fs.free_open_file_entries k free g,
                ok.shape.open_file_states,
                ok.shape.open_files,
              ));
          inumber = refl;
          inode =
              get_elem?-set_self fs.inode_table i r.inode (get_elem?_bound fs.inode_table i v at)
              ∙ ap some same;
        };
        at_end = ap Inode.i_size same;
        same_data = refl;
        same_params = refl;
        same_blocks = elim r.released_block [
          | inl (t, z) ↦ z
          | inr (t, z) ↦ absurd (ground (arith, t))
        ];
        same_directory = refl;
        same_handles = reclosed fs k g;
      }
    ]
