-- ===== src/Lib.antt =====
-- A verification library of the Python programs of this repository.
--
-- tools/launch.py starts a distributed training run. `main` checks the options; `submit_jobs` reads
-- the hosts and the partition config, asks by a monitor file whether servers are alive, starts the
-- servers and the clients over ssh, joins their threads and, on an interrupt, has a cleanup process
-- kill what runs on the hosts. The modules below Launch follow these parts:
--   Launch.Env       the strings of environment variables and the shell commands around them
--   Launch.Torch     `construct_torch_dist_launcher_cmd` and `wrap_udf_in_torch_dist_launcher`
--   Launch.Ports     `get_available_port`
--   Launch.Servers   `has_alive_servers`, `clean_alive_servers` and the two globals
--   Launch.Hosts     the loop of `submit_jobs` over the file of IP addresses
--   Launch.Remote    `execute_remote` and the codes of its threads
--   Launch.Submit    `submit_jobs`
--   Launch.Options   `main` behind the argument parser
--   Launch.Cleanup   `cleanup_proc`, `kill_process` and the functions that collect pids
--
-- python/GraphPartition.py loads a dataset and sets the masks of the training, validation and test
-- nodes before it partitions the graph: Partition has these masks, and Partition.Script the rest.
-- srcChange/partition/aly_partition.py, a changed copy of a DGL module, assigns the nodes to
-- partitions, stores the parts with a config, and loads them again:
--   Partition.Graph     the graph that is partitioned, and its homogeneous graph
--   Partition.Homogeneous  `get_homogeneous`, with the numbers by which METIS balances
--   Partition.Parts     the partitions that METIS assigns, and the two lines that change them
--   Partition.Trainers  `_set_trainer_ids`
--   Partition.Pieces    the parts with their types, and the edge assignment
--   Partition.Maps      the ID ranges of the parts, which become the node map and the edge map
--   Partition.Features  the features that are stored for a part, and the number of edge cuts
--   Partition.Config    `_format_part_metadata`, `_load_part_config` and `_dump_part_config`
--   Partition.Saved     how `partition_graph` fills the config of a reshuffled graph and writes it
--   Partition.Book      `load_partition_book` and `_get_part_ranges`
--   Partition.Load      `load_partition_feats`
--   Partition.Store     the loop that saves the parts, `_save_graphs` and `load_partition`
--   Partition.Splitting  the branches of `partition_graph` that split the graph, `_get_orig_ids`
--   Partition.Whole     `partition_graph` as a whole, and what is loaded behind it
-- python/dist_graphSage.py trains on the partitions: Training has its `NeighborSampler` and the layers
-- of `DistSAGE`, Training.Inference the inference on tensors that several processes share,
-- Training.Run the functions `run`, `evaluate` and `compute_acc`, and Training.Main its `main`.
--
-- Text models what the scripts use of Python's `str`: a text is the list of its code points. `int`
-- reads ASCII digits only. Base holds what all modules share; a function that may raise returns a
-- `Result`, and one that changes state is a function from a state to a result and the new state.
--
-- The network, the file lock, the JSON reader, the search for a regular expression, DGL, the values of
-- tensors, what remote commands print and the way in which the started commands end are not code of the
-- repository. They are arguments: the records `Network`, `System`, `Remote`, `Dgl`, `Torch`, `DistGraph`, `Backend` and
-- `Formats`, and functions such as `acquire` and `metis`. What is assumed of them is a hypothesis
-- of the theorem that needs it: a connected socket cannot connect again (`OneConnection`), a lock
-- touches its own file only (`IsLock`), a failed call has a return code other than 0 (`IsReal`),
-- the destination nodes of a block are the given ones (`IsToBlock`), a layer maps its input width
-- to its output width (`IsConv`), the activation keeps the width (`KeepsWidth`), and on a block of
-- all neighbours a layer computes what it computes on the whole graph (`IsWhole`), from the rows of
-- that graph (`IsLocal`); the tensor operations do what they document (`IsBackend`), the inner IDs
-- of a reshuffled part are consecutive (`IsReshuffled`), each node or edge is an inner one of
-- exactly one part (`IsPartitioned`), the text of an edge type is read as this type (`IsEtypes`),
-- the JSON reader gives back the config that was written, with its dictionaries in one order, the
-- model and the optimizer accept what they are given (`Learns`), and the inference has a row for
-- each node (`Evaluates`). Of the partitioning it is assumed that rows and cells are set as NumPy
-- and DGL document (`IsScatter`, `IsFill`), that a tensor without repetitions has all values of the
-- tensor (`IsUnique`), that the homogeneous graph has each node of a type once (`IsSim`), that no
-- inner edge is twice in a part (`IsPiece`), and that the maps of the parts can be stored
-- (`IsStored`). The records `Homogenizer`, `Partitioner` and `Saving` hold what is taken of DGL.
--
-- Printed messages and waiting times are left out. `int(i / n)` in `submit_jobs` goes through a
-- float; the model divides exactly, which is the same below 2^53. The set of pids in
-- `get_remote_pids` is a list without repetitions; its order is lost in the sort behind it. Loops
-- recur on the list or the count that they run over; `show` takes as much fuel as its number, which
-- bounds its digits.
--
-- A Python dictionary is a list of entries in the order of insertion. The path of a config is taken
-- as absolute. The batches of the loader are looked at as a list, and the values of the losses and
-- the times of a run are left out.
--
-- Not modelled are the argument parsers, the loading of datasets, the checks of `load_partition` with
-- DGL_DIST_DEBUG in the environment, which ask the book classes of DGL, what is written before a call
-- that raises, the C++ code under src/ and the shell scripts.
pub mod Base
pub mod Text
pub mod Launch
pub mod Partition
pub mod Training
