-- ===== src/Lib.antt =====
-- The data proxy library (DataProxy/): a client reads, writes and deletes data by the names of
-- configured nodes. A data node reaches a database, a file or a service; a router and a partition
-- node forward to other nodes by name. Every node validates and translates a request's parameters,
-- transforms its stream, retries, tees and forwards a request that has failed. The client keeps a
-- transaction over the nodes and checks a configuration for cycles.
--
-- Common: lists, maps and sets of the C++ library (Dict), results and effects (Exec): an action
--   takes a state to a result, which is a value, an exception or `diverged`, and the state that it
--   leaves, also where it throws.
-- Request: parameters, streams, the transaction state of DataProxy/include/DataProxyClient.hpp
--   (Session), and the calls by which a node reaches another (Forwarder,
--   DataProxy/include/detail/RequestForwarder.hpp).
-- Node: DataProxy/src/AbstractNode.cpp. Config has the configuration and what is done to
--   parameters, Attempts the retry loops, and Load, Store and Delete the three requests around the
--   LoadImpl, StoreImpl and DeleteImpl that are their arguments.
-- ParameterTranslator: DataProxy/src/ParameterTranslator.cpp, the translator that a node may have.
--   Configure has the constructor, for which a Parameter node is its attributes.
-- Router: DataProxy/src/RouterNode.cpp. The loop of StoreImpl and that of DeleteImpl are one
--   function, Broadcast, since they differ in the call that they make only.
-- Partition: DataProxy/src/PartitionNode.cpp, with the loop over the rows in Blocks.
-- Nodes: the classes of nodes behind the virtual functions, with an endpoint for a data node.
-- Client: DataProxy/src/DataProxyClient.cpp and DataProxy/src/RequestForwarder.cpp. Transaction has
--   HandleResult, BeginTransaction, Commit and Rollback, Requests the named requests, Cycles the check
--   of the configuration and Initialize what is around it.
-- LocalFileProxy: DataProxy/src/LocalFileProxy.cpp, a data node on files, with Commit and Rollback in
--   Commit. A destination's pending operations are the strings of the source, "" for a delete.
-- ConnectionPool: DataProxy/src/DatabaseConnectionManager.cpp. The pool of one connection name, with
--   TryReducePool in Reduce, in Manager the pools by name and the shards by table, and in Parse the
--   configuration of both, a node of which is its attributes. A handle's use count is one more than
--   its holders, and the clock is an argument.
--
-- A request forwards to nodes that forward in turn; `forwarder` takes the depth of that as fuel,
-- and a request beyond it is `diverged`, which no handler catches. The check for cycles takes its
-- depth likewise. Client.Cycles.Fuel and Client.Termination have how much is enough. The retry
-- count is an unsigned 32-bit integer, and one more than it is taken modulo 2 ^ 32. In
-- LocalFileProxy `diverged` stands for undefined behaviour: the first of no pending operations is
-- read.
--
-- Parameters of the model: what data nodes do (Endpoint), stream transformers, the sort command,
-- the splitting of a header and the CSV reader of the partition node (PartitionLibrary), how much
-- of its input a boost output chain has passed on and where a store leaves the position of the
-- stream that it reads, a function of what it is given (Platform), what the parameter translator calls
-- (TranslatorLibrary), the variable substitution of DataProxy/src/ProxyUtilities.cpp included, the
-- reading of a configuration file (ConfigFile), file operations (FileSystem, of which
-- LocalFileProxy.Contents has what a disk without failures does, and LocalFileProxy.Disk an
-- instance), the text functions behind a file's name (Naming), the database library (Databases), the
-- conversion of numbers in a configuration (Casts), and what the client loads for the shards
-- (ShardLoader).
--
-- Not modelled: the XML configuration but for the database connections and the parameter
-- translators, and its validation, locks, logging and monitoring, the delay between retries, join
-- nodes, the data nodes on databases, REST services and commands, the stream transformers, the
-- thread that watches the pools, and the applications, bindings and scripts around the library.
pub mod Common
pub mod Request
pub mod Node
pub mod ParameterTranslator
pub mod Router
pub mod Partition
pub mod Nodes
pub mod Client
pub mod ConnectionPool
pub mod LocalFileProxy
