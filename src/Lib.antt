-- ===== src/Lib.antt =====
-- A model of BFT-MVBA, four protocols of multi-valued Byzantine agreement in Go: the protocols sMVBA,
-- MVBA and VABA whole, and what they stand on.
--
-- The program. A node has a committee and its thresholds (core/config.go), keys and a signing
-- goroutine (crypto/crypto.go), a pool of batches (pool/), a store before a database (store/store.go)
-- and a transmitor to the others (core/transmitor.go). The core of sMVBA (core/smvba/consensus/) runs
-- one loop over the messages that come and those that the node sends to itself. In each round of each
-- epoch every node broadcasts a block in two phases (spb.go), the counters (aggreator.go) find the
-- quorums, shares of a coin elect a leader (elector.go), two rounds of votes decide on the leader's
-- block, a halt ends the epoch, and the commitor (commitor.go) lets the blocks out in order.
-- The core of MVBA (core/mvba/consensus/) has the same kind of loop over three channels. In each epoch
-- every node broadcasts a block and then the list of the broadcasts that have finished (cbc.go), shares
-- of a coin order the members as leaders (elector.go), and for one leader after the other the nodes
-- vote, run a binary agreement on the votes in rounds with a coin (aba.go), and halt: the first leader
-- that is agreed on ends the epoch, and the commitor (commitor.go) lets its block out in order.
-- In the core of VABA (core/vaba/consensus/) every node promotes a block through four phases of votes
-- (promote.go); when enough promotions are done the epoch is skipped on, a leader is elected
-- (elector.go), and the nodes tell each other in view changes how far the leader's block got: a commit
-- ends the epoch with the block, and 2f + 1 view changes without one end it with an empty block.
--
-- The files.
--   Base        Boolean tests, lists, 64-bit patterns, maps, results: shared by all the others
--   Committee   core/config.go, and the addresses of core/transmitor.go. Committee/Quorum is about sets
--               of members, Committee/Lookup about names and addresses
--   Crypto      crypto/crypto.go; Crypto/Digits is about `strconv.AppendInt` in base 2
--   Pool        pool/: newTxQueue, make, run (one round is `receive`), put, get, NewPool, GetBatch,
--               PutBatch
--   Store       store/store.go: the request loop (`serve`), Read, Write
--   Committor   core/smvba/consensus/commitor.go: Commit (`commit`, its loop is `drain`)
--   Smvba       core/smvba/consensus/:
--     Messages, Signing    message.go; each New…, Hash and Verify under the message's name
--     Aggreator            aggreator.go; `append_finish` is FinishAggreator.Append, and so on
--     Elector              elector.go
--     Effects, Spb         spb.go, and the effects that methods have; Spb/Runs has runs of whole tasks
--                          on one instance, Spb/Steps the goroutines cut where they touch what
--                          they share; Spb/Races and Spb/Alone are about these
--     Core                 core.go: State has the fields and the reads and writes of maps and store,
--                          Rounds what the handlers call, Handlers the handlers, Loop the loop
--     Runs                 runs of a node: events in any order
--     Epochs, Dones, DoneOnce, Instances, NoPanic, Quiet, CommitOrder, Halts, Signatures, Blocks
--                          what is shown of the node and of its messages
--   Mvba        core/mvba/consensus/:
--     Messages             message.go: Blocks (blocks and proposals), Broadcasts, Agreements, Kinds
--     Effects              what methods do, and the results and tasks of the instances
--     Counters, Signals, Coins    aggreator.go, and what is shown of runs of its counters
--     Commits, CommitRuns  commitor.go, and runs of its calls
--     Cbc                  cbc.go: ProcessProposal is `process_proposal`, and so on. Cbc/Once has runs of
--                          whole tasks on one instance, Cbc/Votes is about proposals. Cbc/Steps
--                          has the goroutines cut at the mutexes and counters, Cbc/Accounts and
--                          Cbc/Alone are about these
--     Aba                  aba.go. Aba/Runs has runs of steps cut at the mutexes, Aba/Once what is sent
--                          once; Aba/Flags and Aba/Agreement are about runs of whole tasks
--     Elector              elector.go; Elector/Order is about the order of the leaders
--     Core                 core.go: State, Rounds, Handlers, Loop as for sMVBA
--     Runs, Pieces         runs of a node, and that what the pieces of the methods keep to, runs keep to
--     Tasks, Epochs, Signatures, Finals, Halts, Repeats, Seeds, CommitOrder
--                          what is shown of the node and of its messages
--   Vaba        core/vaba/consensus/:
--     Messages             message.go: Broadcasts (the block and the messages of a promotion and of its
--                          end), Views (the shares of the election, view changes and halts), Kinds
--     Aggreator, Elector, Commits    aggreator.go, elector.go, commitor.go
--     Effects, Promote     promote.go. Promote/Runs has runs of tasks on one promotion, Promote/Once and
--                          Promote/NilBlocks are about the phases that it asks for
--     Core                 core.go: State, Epochs (what the handlers call), Handlers, Loop
--     Runs, Quiet, Fed, CommitOrder, Shares, Elections, Signatures
--                          runs of a node, and what is shown of the node and of its messages
--   Threads     goroutines that are cut, over what they share: shared by the instances
--   Methods     methods of a core, relations along them and runs of events: shared by the three cores
--   Fixtures    keys, a committee and a store for the runs on concrete inputs
-- Modules called Tests run the code on concrete inputs.
--
-- The model. A method of the core takes the state and gives its result, the state after it and the
-- list of what it did, in order; results are a value, an error or a panic. Go's integers are 64-bit
-- patterns with the signed order written out. Maps of flags are functions; the committee, the
-- commitor's blocks and the counters' authors are lists. A database, gob's encoding of blocks, SHA-256,
-- ed25519 and the threshold signatures are parameters, in the records `Db`, `Services` and
-- `SigService`; what is assumed of the signatures stands in `HasUniqueSignatures` and `HasKeys`.
-- In runs of a node a goroutine of an instance is one step, which leaves out what another one could do
-- in between; the goroutines of spb.go and cbc.go and `ProcessABAMux` are cut as well, each on its
-- own instance.
-- The slice of finished broadcasts of an epoch, which MVBA hands on in its own commitment and goes on
-- changing, is a reference to it (`Slice`). The shuffle of math/rand is a parameter, assumed to move
-- entries about (`Shuffles`). The only fuel is that of the commitor's loop: as many rounds
-- as it holds blocks, which is enough, as each round takes one out.
--
-- Not modelled. Channels that are full, sockets, configuration files, flags, logging and the
-- benchmark, which are input and output; the cutting of the goroutines of promote.go and of the others
-- of aba.go; core/mercury, which is a protocol of its own.
pub mod Base
pub mod Committee
pub mod Crypto
pub mod Pool
pub mod Store
pub mod Smvba
pub mod Vaba
pub mod Committor
pub mod Methods
pub mod Threads
pub mod Fixtures
pub mod Mvba
